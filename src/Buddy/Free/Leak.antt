-- ===== src/Buddy/Free/Leak.antt =====
-- A page table out of the quarantine of src/memory/buddy.rs: `q_pop` and `alloc_zeroed_page` both
-- count it, `free` counts back once.
use rynex.Prelude.{
  ℕ, zero, suc, ◌≤◌, ◌<◌, ◌≡◌, refl, ap, sym, subst, ◌∙◌, arith, true, false, some, elem,
}
use rynex.Buddy.State.{
  Buddy, max_refc_pages, phys_to_idx, page_index, page_type_pte, page_type_free,
}
use rynex.Buddy.Bitmap.{
  track_freed_page, untrack_freed_page, used_mark, used_clear, used_set, page_type_set,
  page_type_get, df_record, pte_refc_dec, pte_refc_inc, pte_refc_get, page_is_used,
}
use rynex.Buddy.Quarantine.{q_pop, q_pop_from, q_drop}
use rynex.Buddy.Audit.{audit_free_lists, maybe_audit}
use rynex.Buddy.Reserve.{is_reserved}
use rynex.Buddy.Alloc.{reclaim, zeroed, alloc_zeroed_page}
use rynex.Buddy.Free.{release_pte, release, free, is_double_free}

counted :
    (a : ℕ) (s : Buddy) → phys_to_idx s a < max_refc_pages → 1 ≤ pte_refc_get (pte_refc_inc a s) a
unfolding pte_refc_get pte_refc_inc
counted a s h = ground arith

base-q_pop_from : (n : ℕ) (s : Buddy) → (q_pop_from n s).1.base ≡ s.base
unfolding q_pop_from pte_refc_inc
base-q_pop_from zero s = refl
base-q_pop_from (suc n) s = ground (arith, base-q_pop_from n (q_drop s))

-- A page that `q_pop` returns has been counted.
q_pop_from_counted :
    (n : ℕ) (s : Buddy) (a : ℕ)
    → (q_pop_from n s).0 ≡ some a
    → phys_to_idx s a < max_refc_pages
    → 1 ≤ pte_refc_get (q_pop_from n s).1 a
unfolding q_pop_from
q_pop_from_counted zero s a e h = cc
q_pop_from_counted (suc n) s a e h =
    ground (arith, counted a (q_drop s), q_pop_from_counted n (q_drop s) a)

-- What `reclaim` makes of the page.
record Reclaimed (a : ℕ) (s t : Buddy) : Type 0 where
  counts : 1 ≤ pte_refc_get s a → 2 ≤ pte_refc_get t a
  typed : page_type_get t a ≡ page_type_pte
  used : used_set t (page_index t a) ≡ true
  untracked : (track_freed_page a t).0 ≡ false
  base : t.base ≡ s.base
  reserved : t.reserved ≡ s.reserved

reclaim-Reclaimed :
    (a : ℕ) (s : Buddy) → phys_to_idx s a < max_refc_pages → Reclaimed a s (reclaim a s)
unfolding reclaim pte_refc_get page_type_get used_set used_mark untrack_freed_page page_type_set
    pte_refc_inc track_freed_page
reclaim-Reclaimed a s h = record {
  counts = ground arith;
  typed = ground arith;
  used = ground arith;
  untracked = ground arith;
  base = ground arith;
  reserved = ground arith;
}

-- Where pages wait, and whether this one is in use.
abbrev pub Lost : ℕ → Buddy → Buddy → Type 0
Lost a t u =
    (u.free_lists ≡ t.free_lists)
    × (u.quarantine ≡ t.quarantine)
    × (u.quarantine_head ≡ t.quarantine_head)
    × (u.quarantine_count ≡ t.quarantine_count)
    × (page_is_used u a ≡ false)

abbrev cleared : ℕ → ℕ × ℕ → Buddy → Buddy
cleared a (caller, tick) t =
    df_record (page_index t a) caller tick 0
      (page_type_set a page_type_free (used_clear (page_index t a) t))

used_after_clear :
    (a : ℕ) (t : Buddy)
    → phys_to_idx t a < max_refc_pages
    → page_is_used (used_clear (page_index t a) t) a ≡ false
unfolding used_clear page_is_used used_set
used_after_clear a t h = ground arith

-- The bookkeeping behind the used bit.
marked_keeps :
    (a pidx : ℕ) (site : ℕ × ℕ) (t : Buddy)
    → let u = df_record pidx site.0 site.1 0 (page_type_set a page_type_free t) in
      Lost a t (record u { used_bmp = λ _ _. false })
      × (u.used_bmp ≡ t.used_bmp)
      × (u.pte_refc ≡ t.pte_refc)
      × (u.base ≡ t.base)
unfolding df_record page_type_set page_is_used used_set
marked_keeps a pidx site t = ground arith

clear_keeps :
    (pidx : ℕ) (t : Buddy)
    → let u = used_clear pidx t in
      (u.free_lists ≡ t.free_lists)
      × (u.quarantine ≡ t.quarantine)
      × (u.quarantine_head ≡ t.quarantine_head)
      × (u.quarantine_count ≡ t.quarantine_count)
      × (u.pte_refc ≡ t.pte_refc)
      × (u.base ≡ t.base)
unfolding used_clear
clear_keeps pidx t = ground arith

used_same :
    (a : ℕ) (s t : Buddy)
    → t.used_bmp ≡ s.used_bmp
    → t.base ≡ s.base
    → page_is_used t a ≡ page_is_used s a
unfolding page_is_used used_set
used_same a s t e f = rw (e, f)

cleared-Lost :
    (a : ℕ) (site : ℕ × ℕ) (t : Buddy)
    → phys_to_idx t a < max_refc_pages
    → Lost a t (cleared a site t)
      × ((cleared a site t).pte_refc ≡ t.pte_refc)
      × ((cleared a site t).base ≡ t.base)
cleared-Lost a (caller, tick) t h =
    let c = used_clear (page_index t a) t in
    let k = clear_keeps (page_index t a) t in
    let m = marked_keeps a (page_index t a) (caller, tick) c in
    (
      (
        m.0.0 ∙ k.0,
        m.0.1 ∙ k.1,
        m.0.2 ∙ k.2,
        m.0.3 ∙ k.3,
        used_same a c _ m.1 m.3 ∙ used_after_clear a t h,
      ),
      m.2 ∙ k.4,
      m.3 ∙ k.5,
    )

counted_down :
    (a : ℕ) (c : Buddy)
    → phys_to_idx c a < max_refc_pages
    → 2 ≤ pte_refc_get c a
    → page_is_used c a ≡ false
    → Lost a c (release_pte a c)
unfolding release_pte pte_refc_get pte_refc_dec page_is_used used_set
counted_down a c h two e = ground arith

count_same :
    (a : ℕ) (s t : Buddy)
    → t.pte_refc ≡ s.pte_refc
    → t.base ≡ s.base
    → 2 ≤ pte_refc_get s a
    → 2 ≤ pte_refc_get t a
unfolding pte_refc_get
count_same a s t e f h = rw (e, f) h

release-Lost :
    (a : ℕ) (site : ℕ × ℕ) (t : Buddy)
    → phys_to_idx t a < max_refc_pages
    → 2 ≤ pte_refc_get t a
    → page_type_get t a ≡ page_type_pte
    → Lost a t (release a 0 site t)
unfolding release
release-Lost a (caller, tick) t h two pte =
    let c = cleared a (caller, tick) t in
    let (l, refc, b) = cleared-Lost a (caller, tick) t h in
    let d = counted_down a c (rw b h) (count_same a t c refc b two) l.4 in
    rw pte (d.0 ∙ l.0, d.1 ∙ l.1, d.2 ∙ l.2, d.3 ∙ l.3, d.4)

maybe_audit-Lost : (a : ℕ) (t u : Buddy) → Lost a t u → Lost a t (maybe_audit u)
unfolding maybe_audit audit_free_lists page_is_used used_set
maybe_audit-Lost a t u l = ground arith

-- The tracker's bit is all that `track_freed_page` changes.
track_keeps :
    (a : ℕ) (t : Buddy)
    → let u = (track_freed_page a t).1 in
      (u.free_lists ≡ t.free_lists)
      × (u.quarantine ≡ t.quarantine)
      × (u.quarantine_head ≡ t.quarantine_head)
      × (u.quarantine_count ≡ t.quarantine_count)
      × (u.pte_refc ≡ t.pte_refc)
      × (u.base ≡ t.base)
      × (u.page_type ≡ t.page_type)
      × (u.used_bmp ≡ t.used_bmp)
      × (u.reserved ≡ t.reserved)
unfolding track_freed_page
track_keeps a t = ground arith

double_free_same :
    (a : ℕ) (s t : Buddy)
    → t.used_bmp ≡ s.used_bmp
    → t.page_type ≡ s.page_type
    → t.base ≡ s.base
    → (is_double_free t a ≡ is_double_free s a) × (page_type_get t a ≡ page_type_get s a)
unfolding used_set page_type_get
double_free_same a s t e f g = rw (e, f, g) (refl, refl)

free_counted :
    (a : ℕ) (site : ℕ × ℕ) (t : Buddy)
    → phys_to_idx t a < max_refc_pages
    → 2 ≤ pte_refc_get t a
    → page_type_get t a ≡ page_type_pte
    → used_set t (page_index t a) ≡ true
    → (track_freed_page a t).0 ≡ false
    → is_reserved t a ≡ false
    → Lost a t (free a 0 site t)
unfolding free
free_counted a site t h two pte used fresh kept =
    let s1 = (track_freed_page a t).1 in
    let k = track_keeps a t in
    let d = double_free_same a t s1 k.7 k.6 k.5 in
    let keeps : is_reserved s1 a ≡ false = ap (elem a) k.8 ∙ kept in
    let uses : is_double_free s1 a ≡ false = d.0 ∙ rw (used, pte) in
    let r = release-Lost a site s1 (rw (k.5) h) (count_same a t s1 k.4 k.5 two) (d.1 ∙ pte) in
    let l : Lost a t (release a 0 site s1) = (r.0 ∙ k.0, r.1 ∙ k.1, r.2 ∙ k.2, r.3 ∙ k.3, r.4) in
    rw (fresh, keeps, uses) (maybe_audit-Lost a t (release a 0 site s1) l)

reclaim_path :
    (a : ℕ) (s s' : Buddy) → q_pop s ≡ (some a, s') → alloc_zeroed_page s ≡ (some a, reclaim a s')
unfolding alloc_zeroed_page
reclaim_path a s s' e = ap zeroed e

q_pop_counted :
    (a : ℕ) (s s' : Buddy)
    → q_pop s ≡ (some a, s')
    → phys_to_idx s' a < max_refc_pages
    → 1 ≤ pte_refc_get s' a
unfolding q_pop
q_pop_counted a s s' e h =
    let b : s'.base ≡ s.base = ap (λ r. r.1.base) (sym e) ∙ base-q_pop_from s.quarantine_count s in
    subst (λ t. 1 ≤ pte_refc_get t a) (ap (λ r. r.1) e)
      (q_pop_from_counted s.quarantine_count s a (ap (λ r. r.0) e) (rw (← b) h))

-- A page table that `alloc_zeroed_page` takes out of the quarantine is counted twice, so that the
-- next `free` of it, which marks it unused, puts it neither back into the quarantine nor on any free
-- list: the page is lost to the allocator, whatever else the state is.
pub reclaimed_page-Lost :
    (a : ℕ) (site : ℕ × ℕ) (s s' : Buddy)
    → q_pop s ≡ (some a, s')
    → phys_to_idx s' a < max_refc_pages
    → is_reserved s' a ≡ false
    → let (result, t) = alloc_zeroed_page s in (result ≡ some a) × Lost a t (free a 0 site t)
reclaimed_page-Lost a site s s' e h kept =
    let r = reclaim-Reclaimed a s' h in
    subst (λ r. (r.0 ≡ some a) × Lost a r.1 (free a 0 site r.1)) (sym (reclaim_path a s s' e))
      (
        refl,
        free_counted a site (reclaim a s') (rw (r.base) h) (r.counts (q_pop_counted a s s' e h))
            r.typed r.used r.untracked (ap (elem a) r.reserved ∙ kept),
      )
