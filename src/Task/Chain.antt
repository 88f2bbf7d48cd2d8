-- ===== src/Task/Chain.antt =====
-- Lists that are linked through an array, as the run queues of src/task.rs are.
use rynex.Prelude.{
  ℕ, ◌≡◌, ◌≢◌, refl, ap, sym, subst, ◌∙◌, arith, true, false, List, [], ◌∷◌, ◌++◌, Option, none,
  some, ◌||◌, update, update_self, update_ne, elem, true_ne_false,
}

-- The list of the indices from a head on.
abbrev pub IsChain : (ℕ → Option ℕ) → Option ℕ → List ℕ → Type 0
IsChain next head [] = head ≡ none
IsChain next head (x ∷ xs) = (head ≡ some x) × IsChain next (next x) xs

abbrev pub last : List ℕ → Option ℕ
last [] = none
last (x ∷ []) = some x
last (x ∷ y ∷ xs) = last (y ∷ xs)

-- No index stands in the list twice.
abbrev pub IsOnce : List ℕ → Type 0
IsOnce [] = Unit
IsOnce (x ∷ xs) = (elem x xs ≡ false) × IsOnce xs

-- A chain is one also where the links change outside of it.
pub IsChain-frame :
    (next next' : ℕ → Option ℕ) (head : Option ℕ) (xs : List ℕ)
    → ((i : ℕ) → elem i xs ≡ true → next' i ≡ next i)
    → IsChain next head xs
    → IsChain next' head xs
IsChain-frame next next' head [] same c = c
IsChain-frame next next' head (x ∷ xs) same (at, c) = (
  at,
  IsChain-frame next next' (next' x) xs (λ i h. same i (ground (arith, h)))
      (subst (λ h. IsChain next h xs) (sym (same x (ground arith))) c),
)

-- A link written outside of a chain.
pub IsChain-update :
    (next : ℕ → Option ℕ) (head : Option ℕ) (xs : List ℕ) (i : ℕ) (v : Option ℕ)
    → elem i xs ≡ false
    → IsChain next head xs
    → IsChain (update next i v) head xs
IsChain-update next head xs i v out c =
    IsChain-frame next (update next i v) head xs
      (λ j h. update_ne next v (λ e. true_ne_false (sym h ∙ ap (λ k. elem k xs) (sym e) ∙ out))) c

pub elem-last : (xs : List ℕ) (l : ℕ) → last xs ≡ some l → elem l xs ≡ true
elem-last [] l at = absurd (ground (arith, at))
elem-last (x ∷ []) l at = ground (arith, at)
elem-last (x ∷ y ∷ xs) l at = ground (arith, elem-last (y ∷ xs) l at)

some_same : (a b : ℕ) → some a ≡ some b → a ≡ b
some_same a b e = cc

-- An index behind the last one.
pub IsChain-append :
    (next : ℕ → Option ℕ) (head : Option ℕ) (xs : List ℕ) (l t : ℕ)
    → IsChain next head xs
    → IsOnce xs
    → last xs ≡ some l
    → elem t xs ≡ false
    → next t ≡ none
    → IsChain (update next l (some t)) head (xs ++ t ∷ [])
IsChain-append next head [] l t c once at out stop = absurd (ground (arith, at))
IsChain-append next head (x ∷ []) l t (first, c) once at out stop =
    let same : l ≡ x = sym (some_same x l at) in
    (
      first,
      (
        subst (λ k. update next k (some t) x ≡ some t) (sym same) (update_self next x (some t)),
        update_ne next (some t) (λ e. ground (arith, out, e, same)) ∙ stop,
      ),
    )
IsChain-append next head (x ∷ y ∷ xs) l t (first, c) (once, rest) at out stop =
    let ne : l ≢ x =
      λ e. true_ne_false (sym (elem-last (y ∷ xs) l at) ∙ ap (λ k. elem k (y ∷ xs)) e ∙ once) in
    let kept : update next l (some t) x ≡ next x = update_ne next (some t) ne in
    (
      first,
      subst (λ h. IsChain (update next l (some t)) h ((y ∷ xs) ++ t ∷ [])) (sym kept)
          (IsChain-append next (next x) (y ∷ xs) l t c rest at (ground (arith, out)) stop),
    )

pub last-append : (xs : List ℕ) (t : ℕ) → last (xs ++ t ∷ []) ≡ some t
last-append [] t = refl
last-append (x ∷ []) t = refl
last-append (x ∷ y ∷ xs) t = last-append (y ∷ xs) t

pub elem-append : (i : ℕ) (xs ys : List ℕ) → elem i (xs ++ ys) ≡ (elem i xs || elem i ys)
elem-append i [] ys = refl
elem-append i (x ∷ xs) ys = ground (arith, elem-append i xs ys)

pub append-IsOnce : (xs : List ℕ) (t : ℕ) → IsOnce xs → elem t xs ≡ false → IsOnce (xs ++ t ∷ [])
append-IsOnce [] t once out = (refl, tt)
append-IsOnce (x ∷ xs) t (new, once) out = (
  ground (arith, elem-append x xs (t ∷ []), new, out),
  append-IsOnce xs t once (ground (arith, out)),
)

-- The head of a chain.
pub chain_head :
    (next : ℕ → Option ℕ) (head : Option ℕ) (xs : List ℕ)
    → IsChain next head xs
    → head ≡ none
    → xs ≡ []
chain_head next head [] c e = refl
chain_head next head (x ∷ xs) (at, c) e = absurd (ground (arith, at, e))
