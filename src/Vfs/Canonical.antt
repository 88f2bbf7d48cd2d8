-- ===== src/Vfs/Canonical.antt =====
-- The paths that `normalize_path` of src/vfs.rs gives.
use rynex.Prelude.{
  ℕ, zero, suc, ◌+◌, ◌≤◌, ◌≡◌, ◌≢◌, refl, sym, subst, ◌∙◌, arith, Bool, true, false, not, List, [],
  ◌∷◌, ◌++◌, Option, none, some, ◌&&◌, ◌==◌, ltb, leb, if◌then◌else◌, length, length-append,
  eq_bytes,
}
use mathlib.Core.List.{append_assoc, append-nil}
use rynex.Vfs.Path.{
  slash, max_segments, dot, dot_dot, drop_last, finish_segment, scan, in_order, write_segments,
  write_path, written, scanned, join_path, normalize_path,
}

abbrev pub no_slash : List ℕ → Bool
no_slash [] = true
no_slash (c ∷ seg) = not (c == slash) && no_slash seg

-- A segment of a canonical path: not empty, without a slash, neither `.` nor `..`.
pub record IsSegment (seg : List ℕ) : Type 0 where
  pub filled : length seg ≢ 0
  pub slash_free : no_slash seg ≡ true
  pub no_dot : eq_bytes seg dot ≡ false
  pub no_dot_dot : eq_bytes seg dot_dot ≡ false

abbrev pub All {ℓ} : {A : Type ℓ} → (A → Type 0) → List A → Type 0
All P [] = true ≡ true
All P (x ∷ xs) = P x × All P xs

-- The segments, each behind a slash.
abbrev pub render : List (List ℕ) → List ℕ
render [] = []
render (seg ∷ segs) = slash ∷ (seg ++ render segs)

-- A canonical path: the root, or at most 64 segments, each behind a slash.
unfoldable pub IsCanonical : List ℕ → Type 0
IsCanonical path =
    (segs : List (List ℕ)) × (path ≡ (if length segs == 0 then slash ∷ [] else render segs))
    × All IsSegment segs
    × (length segs ≤ max_segments)

-- Good segments found so far.
IsStack : List (List ℕ) → Type 0
IsStack segs = All IsSegment segs × (length segs ≤ max_segments)

abbrev Stacks : Option (List (List ℕ)) → Type 0
Stacks none = true ≡ true
Stacks (some segs) = IsStack segs

either :
    (b : Bool) (x y : Option (List (List ℕ)))
    → (b ≡ true → Stacks x)
    → (b ≡ false → Stacks y)
    → Stacks (if b then x else y)
either true x y yes_then or_else = yes_then refl
either false x y yes_then or_else = or_else refl

dropped-IsStack : (segs : List (List ℕ)) → IsStack segs → IsStack (drop_last segs)
unfolding IsStack
dropped-IsStack [] good = good
dropped-IsStack (seg ∷ segs) (all, few) = (all.1, omega (arith, few))

pushed-IsStack :
    (seg : List ℕ) (segs : List (List ℕ))
    → IsSegment seg
    → IsStack segs
    → leb max_segments (length segs) ≡ false
    → IsStack (seg ∷ segs)
unfolding IsStack
pushed-IsStack seg segs good (all, few) room = ((good, all), grind arith)

finish-Stacks :
    (seg : List ℕ) (segs : List (List ℕ))
    → no_slash seg ≡ true
    → IsStack segs
    → Stacks (finish_segment seg segs)
unfolding finish_segment
finish-Stacks [] segs free good = good
finish-Stacks (c ∷ cs) segs free good =
    either (eq_bytes (c ∷ cs) dot) _ _ (λ _. good)
      (λ no_dot.
        either (eq_bytes (c ∷ cs) dot_dot) _ _ (λ _. dropped-IsStack segs good)
          (λ no_dots.
            either (leb max_segments (length segs)) _ _ (λ _. refl)
              (λ room.
                pushed-IsStack (c ∷ cs) segs
                  (record {
                    filled = omega arith;
                    slash_free = free;
                    no_dot = no_dot;
                    no_dot_dot = no_dots;
                  })
                  good room)))

no_slash-append :
    (seg : List ℕ) (c : ℕ)
    → no_slash seg ≡ true
    → (c == slash) ≡ false
    → no_slash (seg ++ c ∷ []) ≡ true
no_slash-append [] c free ne = ground (arith, ne)
no_slash-append (d ∷ seg) c free ne = ground (arith, ne, no_slash-append seg c, free)

followed :
    (o : Option (List (List ℕ))) (f : List (List ℕ) → Option (List (List ℕ)))
    → Stacks o
    → ((segs : List (List ℕ)) → IsStack segs → Stacks (f segs))
    → Stacks (elim o [ none ↦ none | some segs ↦ f segs ])
followed none f s g = refl
followed (some segs) f s g = g segs s

scan-Stacks :
    (bytes seg : List ℕ) (segs : List (List ℕ))
    → no_slash seg ≡ true
    → IsStack segs
    → Stacks (scan bytes seg segs)
unfolding scan
scan-Stacks [] seg segs free good = finish-Stacks seg segs free good
scan-Stacks (c ∷ bytes) seg segs free good =
    either (c == slash) _ _
      (λ _.
        followed (finish_segment seg segs) (λ segs'. scan bytes [] segs')
          (finish-Stacks seg segs free good) (λ segs' good'. scan-Stacks bytes [] segs' refl good'))
      (λ ne. scan-Stacks bytes (seg ++ c ∷ []) segs (no_slash-append seg c free ne) good)

-- What was written is the path wanted, and fits.
abbrev Wrote : ℕ → List ℕ → Option (List ℕ) → Type 0
Wrote cap want none = true ≡ true
Wrote cap want (some path) = (path ≡ want) × (length path ≤ cap)

either-Wrote :
    (cap : ℕ) (want : List ℕ) (b : Bool) (y : Option (List ℕ))
    → (b ≡ false → Wrote cap want y)
    → Wrote cap want (if b then none else y)
either-Wrote cap want true y h = refl
either-Wrote cap want false y h = h refl

write_segments-Wrote :
    (cap : ℕ) (out : List ℕ) (segs : List (List ℕ))
    → length out ≤ cap
    → Wrote cap (out ++ render segs) (write_segments cap out segs)
unfolding write_segments
write_segments-Wrote cap out [] le = (sym (append-nil out), le)
write_segments-Wrote cap out (seg ∷ segs) le =
    either-Wrote cap (out ++ slash ∷ (seg ++ render segs)) (leb cap (length out)) _ (λ _.
      either-Wrote cap (out ++ slash ∷ (seg ++ render segs))
        (ltb cap (length (out ++ slash ∷ []) + length seg)) _
        (λ fits.
          subst (λ want. Wrote cap want (write_segments cap ((out ++ slash ∷ []) ++ seg) segs))
            (append_assoc (out ++ slash ∷ []) seg (render segs)
              ∙ append_assoc out (slash ∷ []) (seg ++ render segs))
            (write_segments-Wrote cap ((out ++ slash ∷ []) ++ seg) segs
              (grind (arith, length-append (out ++ slash ∷ []) seg, fits)))))

All-append {ℓ} :
    {A : Type ℓ} (P : A → Type 0) (xs ys : List A) → All P xs → All P ys → All P (xs ++ ys)
All-append P [] ys hx hy = hy
All-append P (x ∷ xs) ys hx hy = (hx.0, All-append P xs ys hx.1 hy)

in_order-IsStack : (segs : List (List ℕ)) → IsStack segs → IsStack (in_order segs)
unfolding IsStack
in_order-IsStack segs (all, few) = (good segs all, omega (arith, same segs, few))
  where
    good : (segs : List (List ℕ)) → All IsSegment segs → All IsSegment (in_order segs)
    good [] all = refl
    good (seg ∷ segs) all =
        All-append IsSegment (in_order segs) (seg ∷ []) (good segs all.1) (all.0, refl)

    same : (segs : List (List ℕ)) → length (in_order segs) ≡ length segs
    same [] = refl
    same (seg ∷ segs) = omega (arith, length-append (in_order segs) (seg ∷ []), same segs)

-- What `normalize_path` may give.
abbrev pub Normal : ℕ → Option (List ℕ) → Type 0
Normal cap none = true ≡ true
Normal cap (some path) = IsCanonical path × (length path ≤ cap)

pub rendered :
    (segs : List (List ℕ))
    → length segs ≢ 0
    → (if length segs == 0 then slash ∷ [] else render segs) ≡ render segs
rendered [] ne = absurd (ne refl)
rendered (seg ∷ segs) ne = ground arith

Wrote-Normal :
    (cap : ℕ) (segs : List (List ℕ)) (o : Option (List ℕ))
    → IsStack segs
    → length segs ≢ 0
    → Wrote cap (render segs) o
    → Normal cap o
unfolding IsStack IsCanonical
Wrote-Normal cap segs none good ne w = refl
Wrote-Normal cap segs (some path) good ne w =
    ((segs, w.0 ∙ sym (rendered segs ne), good.0, good.1), w.1)

write_path-Normal :
    (cap : ℕ) (segs : List (List ℕ)) → IsStack segs → Normal cap (write_path cap segs)
unfolding write_path IsCanonical
write_path-Normal zero [] good = refl
write_path-Normal (suc cap) [] good =
    let room : leb (suc cap) 0 ≡ false = ground arith in
    subst (λ b. Normal (suc cap) (if b then none else some (slash ∷ []))) (sym room)
      (([], refl, refl, omega arith), omega arith)
write_path-Normal cap (seg ∷ segs) good =
    Wrote-Normal cap (in_order (seg ∷ segs)) (write_segments cap [] (in_order (seg ∷ segs)))
      (in_order-IsStack (seg ∷ segs) good) (omega (arith, length-append (in_order segs) (seg ∷ [])))
      (write_segments-Wrote cap [] (in_order (seg ∷ segs)) (omega arith))

-- Whatever the working directory and the input, so that it has a byte at least, a path that
-- `normalize_path` gives fits the buffer and is canonical: the root, or at most 64 segments, each
-- behind one slash, none of them empty, `.` or `..`, and none with a slash in it.
pub normalize_path-Normal :
    (cwd : List ℕ) (cap c : ℕ) (rest : List ℕ) → Normal cap (normalize_path cwd cap (c ∷ rest))
unfolding normalize_path written scanned IsStack
normalize_path-Normal cwd cap c rest = of_joined (join_path cwd cap (c ∷ rest))
  where
    of_scan : (o : Option (List (List ℕ))) → Stacks o → Normal cap (written cap o)
    of_scan none good = refl
    of_scan (some segs) good = write_path-Normal cap segs good

    of_joined : (o : Option (List ℕ)) → Normal cap (scanned cap o)
    of_joined none = refl
    of_joined (some path) =
        of_scan (scan path [] []) (scan-Stacks path [] [] refl (refl, omega arith))
