-- ===== src/Vfs/Fixed.antt =====
-- Canonical paths are the fixed points of `normalize_path` of src/vfs.rs.
use rynex.Prelude.{
  ℕ, ◌+◌, ◌≤◌, ◌<◌, ◌≡◌, ◌≢◌, refl, ap, sym, ◌∙◌, arith, true, false, List, [], ◌∷◌, ◌++◌, Option,
  none, some, ◌==◌, ltb, leb, length, length-append, if_false,
}
use mathlib.Core.List.{append_assoc, append-nil}
use rynex.Vfs.Path.{
  slash, max_segments, finish_segment, scan, in_order, write_segments, write_path, written, scanned,
  join_path, append_all, append_to, normalize_path,
}
use rynex.Vfs.Canonical.{no_slash, IsSegment, All, render, IsCanonical, rendered}

append_all-fits :
    (cap : ℕ) (out bytes : List ℕ)
    → length out + length bytes ≤ cap
    → append_all cap out bytes ≡ some (out ++ bytes)
unfolding append_all
append_all-fits cap out [] le = ap some (sym (append-nil out))
append_all-fits cap out (c ∷ bytes) le =
    let room : leb cap (length out) ≡ false = grind arith in
    if_false _ _ _ room
    ∙ append_all-fits cap (out ++ c ∷ []) bytes (omega (arith, length-append out (c ∷ []), le))
    ∙ ap some (append_assoc out (c ∷ []) bytes)

-- The bytes of a segment are gathered.
scan-append :
    (seg more cur : List ℕ) (segs : List (List ℕ))
    → no_slash seg ≡ true
    → scan (seg ++ more) cur segs ≡ scan more (cur ++ seg) segs
unfolding scan
scan-append [] more cur segs free = ap (λ t. scan more t segs) (sym (append-nil cur))
scan-append (c ∷ seg) more cur segs free =
    let ne : (c == slash) ≡ false = ground (arith, free) in
    let rest : no_slash seg ≡ true = ground (arith, free) in
    skipped c (seg ++ more) cur segs ne
    ∙ scan-append seg more (cur ++ c ∷ []) segs rest
    ∙ ap (λ t. scan more t segs) (append_assoc cur (c ∷ []) seg)
  where
    skipped :
        (c : ℕ) (bytes cur : List ℕ) (segs : List (List ℕ))
        → (c == slash) ≡ false
        → scan (c ∷ bytes) cur segs ≡ scan bytes (cur ++ c ∷ []) segs
    skipped c bytes cur segs ne = ground (arith, ne)

finished_good :
    (seg : List ℕ) (segs : List (List ℕ))
    → IsSegment seg
    → length segs < max_segments
    → finish_segment seg segs ≡ some (seg ∷ segs)
unfolding finish_segment
finished_good [] segs good lt = absurd (good.filled refl)
finished_good (c ∷ cs) segs good lt =
    let room : leb max_segments (length segs) ≡ false = grind arith in
    if_false _ _ _ good.no_dot ∙ if_false _ _ _ good.no_dot_dot ∙ if_false _ _ _ room

abbrev rev_onto : List (List ℕ) → List (List ℕ) → List (List ℕ)
rev_onto [] acc = acc
rev_onto (seg ∷ segs) acc = rev_onto segs (seg ∷ acc)

scan-render :
    (segs : List (List ℕ)) (cur : List ℕ) (acc : List (List ℕ))
    → IsSegment cur
    → All IsSegment segs
    → length acc + length segs < max_segments
    → scan (render segs) cur acc ≡ some (rev_onto segs (cur ∷ acc))
unfolding scan
scan-render [] cur acc good all lt = finished_good cur acc good (omega (arith, lt))
scan-render (seg ∷ segs) cur acc good all lt =
    ap
      (λ o. elim o as (λ _. Option (List (List ℕ))) [
        | none ↦ none
        | some segs' ↦ scan (seg ++ render segs) [] segs'
      ])
      (finished_good cur acc good (omega (arith, lt)))
    ∙ scan-append seg (render segs) [] (cur ∷ acc) all.0.slash_free
    ∙ scan-render segs seg (cur ∷ acc) all.0 all.1 (omega (arith, lt))

in_order-rev_onto : (segs acc : List (List ℕ)) → in_order (rev_onto segs acc) ≡ in_order acc ++ segs
in_order-rev_onto [] acc = sym (append-nil (in_order acc))
in_order-rev_onto (seg ∷ segs) acc =
    in_order-rev_onto segs (seg ∷ acc) ∙ append_assoc (in_order acc) (seg ∷ []) segs

write_segments-fits :
    (cap : ℕ) (out : List ℕ) (segs : List (List ℕ))
    → length out + length (render segs) ≤ cap
    → write_segments cap out segs ≡ some (out ++ render segs)
unfolding write_segments
write_segments-fits cap out [] le = ap some (sym (append-nil out))
write_segments-fits cap out (seg ∷ segs) le =
    let total : length (seg ++ render segs) ≡ length seg + length (render segs) =
      length-append seg (render segs) in
    let one : length (out ++ slash ∷ []) ≡ length out + 1 = length-append out (slash ∷ []) in
    let room : leb cap (length out) ≡ false = grind (arith, total) in
    let fits : ltb cap (length (out ++ slash ∷ []) + length seg) ≡ false =
      grind (arith, total, one) in
    if_false _ _ _ room
    ∙ if_false _ _ _ fits
    ∙ write_segments-fits cap ((out ++ slash ∷ []) ++ seg) segs
        (omega (arith, total, one, length-append (out ++ slash ∷ []) seg, le))
    ∙ ap some (
        append_assoc (out ++ slash ∷ []) seg (render segs)
        ∙ append_assoc out (slash ∷ []) (seg ++ render segs))

length-rev_onto : (segs acc : List (List ℕ)) → length (rev_onto segs acc) ≡ length segs + length acc
length-rev_onto [] acc = omega arith
length-rev_onto (seg ∷ segs) acc = omega (arith, length-rev_onto segs (seg ∷ acc))

write_path-in_order :
    (cap : ℕ) (segs : List (List ℕ))
    → length segs ≢ 0
    → write_path cap segs ≡ write_segments cap [] (in_order segs)
unfolding write_path
write_path-in_order cap [] ne = absurd (ne refl)
write_path-in_order cap (seg ∷ segs) ne = refl

-- A row of segments, written and read again.
rows :
    (cwd : List ℕ) (cap : ℕ) (segs : List (List ℕ))
    → All IsSegment segs
    → length segs ≤ max_segments
    → length segs ≢ 0
    → length (render segs) ≤ cap
    → normalize_path cwd cap (render segs) ≡ some (render segs)
unfolding normalize_path join_path scanned written append_to scan finish_segment
rows cwd cap [] all few ne fits = absurd (ne refl)
rows cwd cap (seg ∷ segs) all few ne fits =
    ap (λ o. scanned cap (append_to cap o (seg ++ render segs)))
      (append_all-fits cap [] (slash ∷ []) (omega (arith, fits)))
    ∙ ap (scanned cap) (append_all-fits cap (slash ∷ []) (seg ++ render segs) (omega (arith, fits)))
    ∙ ap (written cap) (
        scan-append seg (render segs) [] [] all.0.slash_free
        ∙ scan-render segs seg [] all.0 all.1 (omega (arith, few)))
    ∙ write_path-in_order cap (rev_onto segs (seg ∷ []))
        (omega (arith, length-rev_onto segs (seg ∷ [])))
    ∙ ap (write_segments cap []) (in_order-rev_onto segs (seg ∷ []))
    ∙ write_segments-fits cap [] (seg ∷ segs) (omega (arith, fits))

root : (cwd : List ℕ) (cap : ℕ) → 1 ≤ cap → normalize_path cwd cap (slash ∷ []) ≡ some (slash ∷ [])
unfolding normalize_path join_path scanned written append_to append_all scan finish_segment
    write_path
root cwd cap le = ground arith

-- A canonical path that fits the buffer is what `normalize_path` makes of it, whatever the working
-- directory: it succeeds there, and to normalise a path again changes nothing.
pub normalize_path-IsCanonical :
    (cwd : List ℕ) (cap : ℕ) (path : List ℕ)
    → IsCanonical path
    → length path ≤ cap
    → normalize_path cwd cap path ≡ some path
unfolding IsCanonical
normalize_path-IsCanonical cwd cap path ([], e, all, few) le =
    ap (normalize_path cwd cap) e ∙ root cwd cap (omega (arith, le, ap length e)) ∙ ap some (sym e)
normalize_path-IsCanonical cwd cap path (seg ∷ segs, e, all, few) le =
    let e' : path ≡ render (seg ∷ segs) = e ∙ rendered (seg ∷ segs) (omega arith) in
    ap (normalize_path cwd cap) e'
    ∙ rows cwd cap (seg ∷ segs) all few (omega arith) (omega (arith, le, ap length e'))
    ∙ ap some (sym e')
