-- ===== src/RawPrices/Once.antt =====
-- A payload is stored once.
use project_stock.Base.{
  ℕ, String, Bool, true, false, List, [], ◌∷◌, ◌++◌, ◌≡◌, refl, str_eq, any, any-append, inl, inr,
  Bool-cases, arith, eq_refl, is_some, not,
}
use project_stock.Store.{Table, add, add_unique}
use project_stock.Store.Laws.{Unique, IsKeyed, add-IsKeyed, add-Unique}
use project_stock.RawPrices.{RawPrice, same_hash, exists_by_hash, save, saved, raw_price, save_raw}

module _ {P : Type 0} (upper : String → String) (hash_payload : P → String) where
  -- No digest stands twice.
  abbrev pub StoredOnce : Table (RawPrice P) → Type 0
  StoredOnce t = IsKeyed t × Unique (same_hash {P = P}) t.rows

  any-last :
      (x : ℕ × RawPrice P) (p : ℕ × RawPrice P → Bool) (xs : List (ℕ × RawPrice P))
      → p x ≡ true
      → any p (xs ++ x ∷ []) ≡ true
  any-last x p xs px = rw any-append (ground (arith, px))

  -- A payload is stored exactly if no row has its digest. Afterwards its digest is known, whether it was
  -- stored now or before, and no digest stands twice if none did; what is refused changes nothing.
  pub save_raw-StoredOnce :
      (now : ℕ) (symbol market : String) (payload : P) (interval source : String)
      (t : Table (RawPrice P))
      → StoredOnce t
      → (is_some (save_raw upper hash_payload now symbol market payload interval source t).0
          ≡ not (exists_by_hash (hash_payload payload) t))
        × (is_some (save_raw upper hash_payload now symbol market payload interval source t).0
              ≡ false
            → (save_raw upper hash_payload now symbol market payload interval source t).1 ≡ t)
        × (exists_by_hash
              (hash_payload payload)
              (save_raw upper hash_payload now symbol market payload interval source t).1
            ≡ true)
        × StoredOnce (save_raw upper hash_payload now symbol market payload interval source t).1
  unfolding save_raw save saved add_unique add
  save_raw-StoredOnce now symbol market payload interval source t h =
      let r = raw_price upper hash_payload now symbol market payload interval source in
      elim (Bool-cases (exists_by_hash (hash_payload payload) t)) [
        | inl known ↦ rw known (refl, (λ _. refl), known, h)
        | inr new ↦ rw new (
          refl,
          (λ e. ground (arith, e)),
          any-last (t.next_id, r) (λ e. str_eq e.1.payload_hash (hash_payload payload)) t.rows
              (eq_refl (hash_payload payload)),
          (add-IsKeyed r t h.0, add-Unique same_hash r t h.1 new),
        )
      ]
