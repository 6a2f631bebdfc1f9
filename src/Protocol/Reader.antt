-- ===== src/Protocol/Reader.antt =====
-- Reading a byte buffer. The source passes the buffer and a position `offset` by reference; the
-- model passes what lies from `offset` on, so `data.size() - offset` is its length.
use net_copy.Common.{
  IsByte, ℕ, ◌≡◌, refl, List, [], ◌++◌, append_assoc, append-nil, Result, ok, throw, leb,
  if◌then◌else◌, length, length-append, arith, ◌≤◌, le→leb, All, ok-injective, subst, Bool-cases,
  inl, inr,
}

abbrev pub Reader {ℓ} : Type ℓ → Type ℓ
Reader A = List ℕ → Result (A × List ℕ)

infixl 5 ◌>>=◌
unfoldable pub ◌>>=◌ {ℓ κ} : {A : Type ℓ} {B : Type κ} → Reader A → (A → Reader B) → Reader B
◌>>=◌ m f bs = elim (m bs) [ ok (a, rest) ↦ f a rest | throw e ↦ throw e ]

unfoldable pub return {ℓ} : {A : Type ℓ} → A → Reader A
return a bs = ok (a, bs)

-- `if (offset + n <= data.size()) x = read(data, offset); else x = d;`
unfoldable pub if_remaining {ℓ} : {A : Type ℓ} → ℕ → Reader A → A → Reader A
if_remaining n m d bs = if leb n (length bs) then m bs else ok (d, bs)

-- A caller that starts at offset 0 and drops the position at the end.
unfoldable pub run {ℓ} : {A : Type ℓ} → Reader A → List ℕ → Result A
run m bs = elim (m bs) [ ok (a, rest) ↦ ok a | throw e ↦ throw e ]

-- What `buffer` holds after the appends `ws`, in their order.
abbrev pub concat : List (List ℕ) → List ℕ
concat [] = []
concat (List.◌∷◌ w ws) = w ++ concat ws

-- `m` reads exactly the bytes `w` as `a`, whatever follows them.
pub record Reads {ℓ} {A : Type ℓ} (m : Reader A) (w : List ℕ) (a : A) : Type ℓ where
  pub apply : (rest : List ℕ) → m (w ++ rest) ≡ ok (a, rest)

-- What `m` reads from bytes satisfies `P`, and leaves bytes, no more than there were.
pub record Yields {ℓ κ} {A : Type ℓ} (P : A → Type κ) (m : Reader A) : Type (ℓ ⊔ κ) where
  pub apply :
      (bs : List ℕ) (a : A) (rest : List ℕ)
      → All IsByte bs
      → m bs ≡ ok (a, rest)
      → P a × All IsByte rest × (length rest ≤ length bs)

pub return-Reads {ℓ} : {A : Type ℓ} (a : A) → Reads (return a) [] a
unfolding return
return-Reads a = record { apply = λ rest. refl }

module _ {ℓ} {A : Type ℓ} where
  pub if_remaining-Reads :
      (n : ℕ) (m : Reader A) (d : A) (w : List ℕ) (a : A)
      → n ≤ length w
      → Reads m w a
      → Reads (if_remaining n m d) w a
  unfolding if_remaining
  if_remaining-Reads n m d w a h r = record {
    apply =
        λ rest. ground (arith, r.apply rest, length-append w rest, le→leb n (length (w ++ rest)));
  }

  pub >>=-Reads {κ} :
      {B : Type κ} (m : Reader A) (f : A → Reader B) (w v : List ℕ) (a : A) (b : B)
      → Reads m w a
      → Reads (f a) v b
      → Reads (m >>= f) (w ++ v) b
  unfolding ◌>>=◌
  >>=-Reads m f w v a b hm hf = record {
    apply = λ rest. rw (append_assoc w v rest, hm.apply (v ++ rest), ◌>>=◌) (hf.apply rest);
  }

  -- The same for a row of reads, with only the continuation to be named.
  pub seq {κ} :
      {B : Type κ} (f : A → Reader B) {m : Reader A} {w v : List ℕ} {a : A} {b : B}
      → Reads m w a
      → Reads (f a) v b
      → Reads (m >>= f) (w ++ v) b
  seq f hm hf = >>=-Reads _ f _ _ _ _ hm hf

  -- A last read, whose value only goes into the result.
  pub seq_last {κ} :
      {B : Type κ} (g : A → B) {m : Reader A} {w : List ℕ} {a : A}
      → Reads m w a
      → Reads (m >>= λ x. return (g x)) w (g a)
  seq_last g {m = m} {w} {a} hm =
      subst (λ v. Reads (m >>= λ x. return (g x)) v (g a)) (append-nil w)
        (>>=-Reads m (λ x. return (g x)) w [] a (g a) hm (return-Reads (g a)))

  -- A read at the end of which the buffer is used up.
  pub seq_end {κ} :
      {B : Type κ} (f : A → Reader B) {m : Reader A} {w v : List ℕ} {a : A} {b : B}
      → Reads m w a
      → f a v ≡ ok (b, [])
      → (m >>= f) (w ++ v) ≡ ok (b, [])
  unfolding ◌>>=◌
  seq_end f {v = v} hm hf = rw (hm.apply v, ◌>>=◌) hf

  pub run_end : (m : Reader A) (w : List ℕ) (a : A) → m w ≡ ok (a, []) → run m w ≡ ok a
  unfolding run
  run_end m w a e = rw (e, run)

  pub run-Reads : (m : Reader A) (w rest : List ℕ) (a : A) → Reads m w a → run m (w ++ rest) ≡ ok a
  unfolding run
  run-Reads m w rest a r = rw (r.apply rest, run)

-- A bind that succeeds did so in both parts.
module _ {ℓ κ} {A : Type ℓ} {B : Type κ} (m : Reader A) (f : A → Reader B) where
  pub >>=-eq-ok :
      (bs : List ℕ) (b : B) (rest : List ℕ)
      → (m >>= f) bs ≡ ok (b, rest)
      → (a : A) × (mid : List ℕ) × (m bs ≡ ok (a, mid)) × (f a mid ≡ ok (b, rest))
  unfolding ◌>>=◌
  >>=-eq-ok bs b rest e = go (m bs) refl e
    where
      go :
          (r : Result (A × List ℕ))
          → m bs ≡ r
          → (elim r [ ok (a, mid) ↦ f a mid | throw x ↦ throw x ]) ≡ ok (b, rest)
          → (a : A) × (mid : List ℕ) × (m bs ≡ ok (a, mid)) × (f a mid ≡ ok (b, rest))
      go (ok (a, mid)) p q = (a, mid, p, q)
      go (throw x) p q = cc

module _ {ℓ κ} {A : Type ℓ} (P : A → Type κ) where
  pub return-Yields : (a : A) → P a → Yields P (return a)
  unfolding return
  return-Yields a h = record {
    apply = λ bs a' rest hb e.
        subst (λ t. P t.0 × All IsByte t.1 × (length t.1 ≤ length bs)) (ok-injective e)
          (h, hb, omega arith);
  }

  pub >>=-Yields {μ ν} :
      {B : Type μ} (Q : B → Type ν) (m : Reader A) (f : A → Reader B)
      → Yields P m
      → ((a : A) → P a → Yields Q (f a))
      → Yields Q (m >>= f)
  >>=-Yields Q m f hm hf = record {
    apply = λ bs b rest hb e.
        let (a, mid, p, q) = >>=-eq-ok m f bs b rest e in
        let (pa, hmid, le) = hm.apply bs a mid hb p in
        let (qb, hrest, le') = (hf a pa).apply mid b rest hmid q in (qb, hrest, omega arith);
  }

  -- The same for a row of reads.
  pub seq-Yields {μ ν} :
      {B : Type μ} {Q : B → Type ν} {m : Reader A} {f : A → Reader B}
      → Yields P m
      → ((a : A) → P a → Yields Q (f a))
      → Yields Q (m >>= f)
  seq-Yields hm hf = >>=-Yields _ _ _ hm hf

  pub if_remaining-Yields :
      (n : ℕ) (m : Reader A) (d : A) → Yields P m → P d → Yields P (if_remaining n m d)
  unfolding if_remaining
  if_remaining-Yields n m d hm hd = record {
    apply = λ bs a rest hb e. elim (Bool-cases (leb n (length bs))) [
      | inl t ↦ hm.apply bs a rest hb (rw t at e)
      | inr t ↦ (return-Yields d hd).apply bs a rest hb (unfold return in rw t at e)
    ];
  }

  pub run-Yields :
      (m : Reader A) (bs : List ℕ) (a : A) → Yields P m → All IsByte bs → run m bs ≡ ok a → P a
  unfolding run
  run-Yields m bs a h hb e = go (m bs) refl e
    where
      go :
          (r : Result (A × List ℕ))
          → m bs ≡ r
          → (elim r [ ok (a, rest) ↦ ok a | throw x ↦ throw x ]) ≡ ok a
          → P a
      go (ok (a', rest)) p q = subst P (ok-injective q) (h.apply bs a' rest hb p).0
      go (throw x) p q = absurd (cc)
