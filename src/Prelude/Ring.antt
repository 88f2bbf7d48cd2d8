-- ===== src/Prelude/Ring.antt =====
-- A circular buffer: the entries from a position on, indices taken modulo the capacity. The kernel
-- log, the keyboard, the terminal, the mailboxes and the page quarantine all keep one.
use Prim.Native.Nat.{ℕ, zero, suc, ◌+◌, ◌-◌, ◌%◌, ◌<◌}
use native.Mathlib.Nat.{mod-mod, mod-add-mod, div-add-mod, add-zero}
use native.Mathlib.Numerals.{add-one}
use mathlib.Core.Path.{◌≡◌, refl, sym, ap, ap₂, ◌∙◌}
use mathlib.Core.Logic.{◌≢◌}
use mathlib.Core.List.{List, [], ◌∷◌, ◌++◌}
use native.Mathlib.Omega.{arith}
use rynex.Prelude.Lists.{length}
use rynex.Prelude.Maps.{update, update_self, update_ne}

mod-add-ne : (cap h j n : ℕ) → j < n → n < cap + j → (h + n) % cap ≢ (h + j) % cap
mod-add-ne cap h j n lt le e = grind (arith, div-add-mod (h + j) cap, div-add-mod (h + n) cap)

module _ {ℓ} {A : Type ℓ} (cap : ℕ) where
  abbrev pub window : (ℕ → A) → ℕ → ℕ → List A
  window f h zero = []
  window f h (suc n) = f (h % cap) ∷ window f (h + 1) n

  pub length-window : (f : ℕ → A) (h n : ℕ) → length (window f h n) ≡ n
  length-window f h zero = refl
  length-window f h (suc n) = ap suc (length-window f (h + 1) n)

  pub window-congr :
      (f g : ℕ → A) (h n : ℕ)
      → ((j : ℕ) → j < n → g ((h + j) % cap) ≡ f ((h + j) % cap))
      → window g h n ≡ window f h n
  window-congr f g h zero e = refl
  window-congr f g h (suc n) e = ap₂ ◌∷◌ (rw add-zero at (e 0 (omega arith))) (
      window-congr f g (h + 1) n
        (λ j p. let q : h + 1 + j ≡ h + suc j = omega arith in rw q (e (suc j) (omega arith))))

  -- A position may be reduced before the walk.
  pub window_mod : (f : ℕ → A) (h n : ℕ) → window f (h % cap) n ≡ window f h n
  window_mod f h zero = refl
  window_mod f h (suc n) =
      ap₂ ◌∷◌ (ap f (mod-mod h cap))
        (sym (window_mod f (h % cap + 1) n) ∙ (rw mod-add-mod (window_mod f (h + 1) n)))

  -- A write at a place that the window does not reach.
  pub window-update_ne :
      (f : ℕ → A) (h n i : ℕ) (a : A)
      → ((j : ℕ) → j < n → i ≢ (h + j) % cap)
      → window (update f i a) h n ≡ window f h n
  window-update_ne f h n i a ne = window-congr f (update f i a) h n (λ j p. update_ne f a (ne j p))

  window-snoc : (f : ℕ → A) (h n : ℕ) → window f h (suc n) ≡ window f h n ++ f ((h + n) % cap) ∷ []
  window-snoc f h zero = rw add-zero
  window-snoc f h (suc n) =
      ap (◌∷◌ (f (h % cap)))
        (window-snoc f (h + 1) n ∙ ap (λ k. window f (h + 1) n ++ f (k % cap) ∷ []) (omega arith))

  -- Positions that agree modulo the capacity start the same window.
  pub window_from : (f : ℕ → A) (h k n : ℕ) → h % cap ≡ k % cap → window f h n ≡ window f k n
  window_from f h k n e = sym (window_mod f h n) ∙ ap (λ t. window f t n) e ∙ window_mod f k n

  window-push_self :
      (f : ℕ → A) (h n : ℕ) (a : A)
      → n < cap
      → window (update f ((h + n) % cap) a) h (suc n) ≡ window f h n ++ a ∷ []
  window-push_self f h n a lt =
      window-snoc (update f ((h + n) % cap) a) h n
      ∙ ap₂ (λ xs x. xs ++ x ∷ [])
          (window-update_ne f h n ((h + n) % cap) a (λ j p. mod-add-ne cap h j n p (omega arith)))
          (update_self f ((h + n) % cap) a)

  -- A write just behind the window makes it longer by the entry written.
  pub window-push :
      (f : ℕ → A) (h n i : ℕ) (a : A)
      → n < cap
      → i ≡ (h + n) % cap
      → window (update f i a) h (n + 1) ≡ window f h n ++ a ∷ []
  window-push f h n i a lt e =
      ap (λ m. window (update f i a) h m) (add-one n)
      ∙ ap (λ j. window (update f j a) h (suc n)) e
      ∙ window-push_self f h n a lt

  -- A window that is not empty starts with the entry at its start.
  pub window_uncons :
      (f : ℕ → A) (h n : ℕ) → n ≢ 0 → window f h n ≡ f (h % cap) ∷ window f (h + 1) (n - 1)
  window_uncons f h zero ne = absurd (ne refl)
  window_uncons f h (suc n) ne = ap (λ k. f (h % cap) ∷ window f (h + 1) k) (omega arith)

  -- Clearing the slot of the oldest entry leaves the others.
  pub window-pop :
      (f : ℕ → A) (h n i : ℕ) (a : A)
      → n < cap
      → i ≡ h % cap
      → window (update f i a) (h + 1) n ≡ window f (h + 1) n
  window-pop f h n i a le at = window-update_ne f (h + 1) n i a (λ j p e.
      mod-add-ne cap h 0 (suc j) (omega arith) (omega arith)
        (let q : h + suc j ≡ h + 1 + j = omega arith in rw (q, add-zero) (sym e ∙ at)))
