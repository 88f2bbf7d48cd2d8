-- ===== src/Vfs/Path.antt =====
-- `normalize_path` of src/vfs.rs. The segments of the joined path are kept as their bytes, the last
-- one first; the output buffer, which is also the source of the copies, is the list written so far.
use rynex.Prelude.{
  ℕ, ◌+◌, Bool, false, List, [], ◌∷◌, ◌++◌, Option, none, some, ◌==◌, ltb, leb, if◌then◌else◌,
  length, eq_bytes,
}

abbrev pub slash : ℕ
slash = 47

abbrev pub max_segments : ℕ
max_segments = 64

abbrev pub dot : List ℕ
dot = 46 ∷ []

abbrev pub dot_dot : List ℕ
dot_dot = 46 ∷ 46 ∷ []

-- Bytes go behind those written, while they fit.
unfoldable pub append_all : ℕ → List ℕ → List ℕ → Option (List ℕ)
append_all cap out [] = some out
append_all cap out (c ∷ bytes) =
    let rest = append_all cap (out ++ c ∷ []) bytes in if leb cap (length out) then none else rest

abbrev pub ends_in_slash : List ℕ → Bool
ends_in_slash [] = false
ends_in_slash (c ∷ []) = c == slash
ends_in_slash (c ∷ d ∷ bytes) = ends_in_slash (d ∷ bytes)

-- A relative path starts with the working directory and a slash.
unfoldable pub start_relative : ℕ → Option (List ℕ) → Option (List ℕ)
start_relative cap none = none
start_relative cap (some out) =
    if ends_in_slash out then some out else append_all cap out (slash ∷ [])

unfoldable pub append_to : ℕ → Option (List ℕ) → List ℕ → Option (List ℕ)
append_to cap none bytes = none
append_to cap (some out) bytes = append_all cap out bytes

unfoldable pub join_path : List ℕ → ℕ → List ℕ → Option (List ℕ)
join_path cwd cap [] = some []
join_path cwd cap (c ∷ rest) =
    if c == slash
    then append_to cap (append_all cap [] (slash ∷ [])) rest
    else append_to cap (start_relative cap (append_all cap [] cwd)) (c ∷ rest)

abbrev pub drop_last : List (List ℕ) → List (List ℕ)
drop_last [] = []
drop_last (seg ∷ segs) = segs

-- A segment is complete: an empty one and `.` are skipped, `..` takes back the last one.
unfoldable pub finish_segment : List ℕ → List (List ℕ) → Option (List (List ℕ))
finish_segment [] segs = some segs
finish_segment (c ∷ cs) segs =
    if eq_bytes (c ∷ cs) dot
    then some segs
    else if eq_bytes (c ∷ cs) dot_dot
    then some (drop_last segs)
    else if leb max_segments (length segs)
    then none
    else some ((c ∷ cs) ∷ segs)

-- The scan, with the bytes of the segment that is read.
unfoldable pub scan : List ℕ → List ℕ → List (List ℕ) → Option (List (List ℕ))
scan [] seg segs = finish_segment seg segs
scan (c ∷ bytes) seg segs =
    let more = scan bytes (seg ++ c ∷ []) segs in
    let next : Option (List (List ℕ)) = elim (finish_segment seg segs) [
      | none ↦ none
      | some segs' ↦ scan bytes [] segs'
    ] in
    if c == slash then next else more

-- The segments, the first one first.
abbrev pub in_order : List (List ℕ) → List (List ℕ)
in_order [] = []
in_order (seg ∷ segs) = in_order segs ++ seg ∷ []

-- The segments are written, each behind a slash.
unfoldable pub write_segments : ℕ → List ℕ → List (List ℕ) → Option (List ℕ)
write_segments cap out [] = some out
write_segments cap out (seg ∷ segs) =
    let out1 = out ++ slash ∷ [] in
    let rest = write_segments cap (out1 ++ seg) segs in
    if leb cap (length out) then none else if ltb cap (length out1 + length seg) then none else rest

unfoldable pub write_path : ℕ → List (List ℕ) → Option (List ℕ)
write_path cap [] = if leb cap 0 then none else some (slash ∷ [])
write_path cap (seg ∷ segs) = write_segments cap [] (in_order (seg ∷ segs))

unfoldable pub written : ℕ → Option (List (List ℕ)) → Option (List ℕ)
written cap none = none
written cap (some segs) = write_path cap segs

unfoldable pub scanned : ℕ → Option (List ℕ) → Option (List ℕ)
scanned cap none = none
scanned cap (some path) = written cap (scan path [] [])

-- The path of an empty input has length 0.
unfoldable pub normalize_path : List ℕ → ℕ → List ℕ → Option (List ℕ)
normalize_path cwd cap [] = some []
normalize_path cwd cap (c ∷ rest) = scanned cap (join_path cwd cap (c ∷ rest))
