-- ===== src/Protocol/Wire/Sequence.antt =====
-- The counted loops of src/protocol/message.cpp: `for (i = 0; i < size; ++i) items.push_back(...)`.
use mathlib.Core.List.{map-id}
use net_copy.Common.{ℕ, zero, suc, ◌≡◌, refl, ap, List, [], ◌∷◌, ◌++◌, length, All, map, subst}
use net_copy.Protocol.Reader.{
  Reader, Reads, Yields, ◌>>=◌, return, seq, seq-Yields, return-Reads, return-Yields, seq_last,
}

module _ {ℓ} {A : Type ℓ} where
  unfoldable pub write_list : (A → List ℕ) → List A → List ℕ
  write_list w [] = []
  write_list w (x ∷ xs) = w x ++ write_list w xs

  unfoldable pub read_list : ℕ → Reader A → Reader (List A)
  read_list zero m = return []
  read_list (suc n) m = do x ← m; xs ← read_list n m; return (x ∷ xs)

  -- Each item `a` is read as `g a`.
  pub list-Reads-map {κ} :
      (P : A → Type κ) (m : Reader A) (w : A → List ℕ) (g : A → A)
      → ((a : A) → P a → Reads m (w a) (g a))
      → (xs : List A) → All P xs
      → Reads (read_list (length xs) m) (write_list w xs) (map g xs)
  unfolding read_list write_list
  list-Reads-map P m w g r [] h = return-Reads []
  list-Reads-map P m w g r (x ∷ xs) h =
      seq _ (r x h.0) (seq_last (◌∷◌ (g x)) (list-Reads-map P m w g r xs h.1))

  pub list-Reads {κ} :
      (P : A → Type κ) (m : Reader A) (w : A → List ℕ)
      → ((a : A) → P a → Reads m (w a) a)
      → (xs : List A) → All P xs
      → Reads (read_list (length xs) m) (write_list w xs) xs
  list-Reads P m w r xs h =
      subst (Reads (read_list (length xs) m) (write_list w xs)) (map-id xs)
        (list-Reads-map P m w (λ x. x) r xs h)

  pub list-Yields {κ} :
      (P : A → Type κ) (m : Reader A)
      → Yields P m
      → (n : ℕ) → Yields (λ xs. All P xs × (length xs ≡ n)) (read_list n m)
  unfolding read_list
  list-Yields P m y zero = return-Yields _ [] (tt, refl)
  list-Yields P m y (suc n) = seq-Yields P y λ x hx.
      seq-Yields _ (list-Yields P m y n)
        λ xs hxs. return-Yields _ (x ∷ xs) ((hx, hxs.0), ap suc hxs.1)
