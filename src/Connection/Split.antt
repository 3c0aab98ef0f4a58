-- ===== src/Connection/Split.antt =====
-- `split_each_substr` (src/zk/connection.cpp): the pieces that its action is given, in order.
use zookeeper_cpp.Base.{
  ℕ, zero, suc, ◌≤◌, List, ◌≢◌, ◌⊎◌, inl, inr, false, [], ◌∷◌, ◌++◌, ◌≡◌, refl, ap, ◌∙◌, arith,
  Bytes, length, take_while, drop_while, except, IsAll, All, join, join_rest, append-nil,
  append_assoc, take_while-append, take_while-eq_self, drop_while-eq-nil, take_while-IsAll,
  drop_while-Stops, Stops, Bool, subst, ◌-◌, take-append-drop_while, length-drop_while-le,
  drop_while-append, length-append,
}

-- `src.remove_prefix(1U)`, where there is a byte.
abbrev skip_one : Bytes → Bytes
skip_one [] = []
skip_one (c ∷ cs) = cs

-- The loop; each round takes at least one byte.
split_fuel : ℕ → ℕ → Bytes → List Bytes
split_fuel zero delim src = []
split_fuel (suc f) delim [] = []
split_fuel (suc f) delim (c ∷ cs) =
    take_while (except delim) (c ∷ cs)
    ∷ split_fuel f delim (skip_one (drop_while (except delim) (c ∷ cs)))

unfoldable pub split_each_substr : Bytes → ℕ → List Bytes
unfolding split_fuel
split_each_substr src delim = split_fuel (length src) delim src

-- One piece, and the delimiter behind it.
split_fuel-piece :
    (f delim : ℕ) (x rest : Bytes)
    → IsAll (except delim) x
    → split_fuel (suc f) delim (x ++ delim ∷ rest) ≡ x ∷ split_fuel f delim rest
unfolding split_fuel
split_fuel-piece f delim [] rest h = ground arith
split_fuel-piece f delim (c ∷ x) rest h = rw (
  take_while-append (except delim) (c ∷ x) (delim ∷ rest) h (ground arith),
  drop_while-append (except delim) (c ∷ x) (delim ∷ rest) h (ground arith),
)

-- The pieces hold no delimiter, and the last one is not empty.
abbrev pub ArePieces : ℕ → List Bytes → Type 0
ArePieces delim [] = Unit
ArePieces delim (x ∷ []) = IsAll (except delim) x × (x ≢ [])
ArePieces delim (x ∷ y ∷ xs) = IsAll (except delim) x × ArePieces delim (y ∷ xs)

split_fuel-nil : (f delim : ℕ) → split_fuel f delim [] ≡ []
unfolding split_fuel
split_fuel-nil zero delim = refl
split_fuel-nil (suc f) delim = refl

split_fuel-last :
    (f delim : ℕ) (x : Bytes)
    → IsAll (except delim) x
    → x ≢ []
    → length x ≤ f
    → split_fuel f delim x ≡ x ∷ []
unfolding split_fuel
split_fuel-last f delim [] h ne le = absurd (ne refl)
split_fuel-last zero delim (c ∷ cs) h ne le = absurd (omega arith)
split_fuel-last (suc f) delim (c ∷ cs) h ne le = rw (
  take_while-eq_self (except delim) (c ∷ cs) h,
  drop_while-eq-nil (except delim) (c ∷ cs) h,
  split_fuel-nil f delim,
)

split_fuel-join :
    (f delim : ℕ) (x : Bytes) (xs : List Bytes)
    → ArePieces delim (x ∷ xs)
    → length (x ++ join_rest (delim ∷ []) xs) ≤ f
    → split_fuel f delim (x ++ join_rest (delim ∷ []) xs) ≡ x ∷ xs
split_fuel-join f delim x [] p le =
    rw (append-nil x) (split_fuel-last f delim x p.0 p.1 (rw (append-nil x) at le))
split_fuel-join zero delim x (y ∷ xs) p le =
    absurd (omega (arith, length-append x (delim ∷ (y ++ join_rest (delim ∷ []) xs))))
split_fuel-join (suc f) delim x (y ∷ xs) p le =
    split_fuel-piece f delim x (y ++ join_rest (delim ∷ []) xs) p.0
    ∙ ap (◌∷◌ x) (
        split_fuel-join f delim y xs p.1
          (omega (arith, length-append x (delim ∷ (y ++ join_rest (delim ∷ []) xs)))))

-- Pieces that were joined by the delimiter are given back by the split, if no piece has the delimiter in
-- it and the last one, where there is one, is not empty.
pub split_each_substr-join :
    (delim : ℕ) (xs : List Bytes)
    → ArePieces delim xs
    → split_each_substr (join (delim ∷ []) xs) delim ≡ xs
unfolding split_each_substr join
split_each_substr-join delim [] p = refl
split_each_substr-join delim (x ∷ xs) p = split_fuel-join _ delim x xs p (omega arith)

-- What the loop makes of a text: nothing of the empty one; otherwise pieces with no delimiter in them
-- that give the text back with delimiters between them, but for one delimiter that may end the text.
abbrev pub Splits : ℕ → Bytes → List Bytes → Type 0
Splits delim src [] = src ≡ []
Splits delim src (x ∷ xs) =
    ((src ≡ join (delim ∷ []) (x ∷ xs)) ⊎ (src ≡ join (delim ∷ []) (x ∷ xs) ++ delim ∷ []))
    × All (IsAll (except delim)) (x ∷ xs)

except-eq : (d c : ℕ) → except d c ≡ false → c ≡ d
except-eq d c h = ground arith

-- A piece in front of a split rest.
Splits-cons :
    (delim : ℕ) (x rest : Bytes) (xs : List Bytes)
    → IsAll (except delim) x
    → Splits delim rest xs
    → Splits delim (x ++ delim ∷ rest) (x ∷ xs)
unfolding join
Splits-cons delim x rest [] h e = (inr (rw (e, append-nil x)), (h, tt))
Splits-cons delim x rest (y ∷ xs) h (inl e, a) = (inl (rw e), (h, a))
Splits-cons delim x rest (y ∷ xs) h (inr e, a) =
    (inr (rw (e, append_assoc x (delim ∷ (y ++ join_rest (delim ∷ []) xs)) (delim ∷ []))), (h, a))

-- One round: the text is `x ++ rest`, where `rest` is empty or begins with the delimiter.
Splits-round :
    (f delim : ℕ) (x rest : Bytes)
    → IsAll (except delim) x
    → Stops (except delim) rest
    → Splits delim (skip_one rest) (split_fuel f delim (skip_one rest))
    → Splits delim (x ++ rest) (x ∷ split_fuel f delim (skip_one rest))
Splits-round f delim x [] h s ih = rw (split_fuel-nil f delim) (unfold join in (inl refl, (h, tt)))
Splits-round f delim x (d ∷ rest) h s ih =
    rw (except-eq delim d s) (Splits-cons delim x rest (split_fuel f delim rest) h ih)

length-skip_one : (s : Bytes) → length (skip_one s) ≤ length s - 1
length-skip_one [] = omega arith
length-skip_one (c ∷ cs) = omega arith

length-drop_while-round :
    (delim c : ℕ) (cs : Bytes) → length (skip_one (drop_while (except delim) (c ∷ cs))) ≤ length cs
length-drop_while-round delim c cs = omega (
  arith,
  length-skip_one (drop_while (except delim) (c ∷ cs)),
  length-drop_while-le (except delim) (c ∷ cs),
)

split_fuel-Splits :
    (f delim : ℕ) (src : Bytes) → length src ≤ f → Splits delim src (split_fuel f delim src)
unfolding split_fuel
split_fuel-Splits zero delim [] le = refl
split_fuel-Splits zero delim (c ∷ cs) le = absurd (omega arith)
split_fuel-Splits (suc f) delim [] le = refl
split_fuel-Splits (suc f) delim (c ∷ cs) le =
    let p : ℕ → Bool = except delim in
    subst
      (λ s.
        Splits delim s
          (take_while p (c ∷ cs) ∷ split_fuel f delim (skip_one (drop_while p (c ∷ cs)))))
      (take-append-drop_while p (c ∷ cs))
      (Splits-round f delim (take_while p (c ∷ cs)) (drop_while p (c ∷ cs))
        (take_while-IsAll p (c ∷ cs)) (drop_while-Stops p (c ∷ cs))
        (split_fuel-Splits f delim (skip_one (drop_while p (c ∷ cs)))
          (omega (arith, length-drop_while-round delim c cs))))

-- For every text and delimiter, the loop of `split_each_substr` ends having read the whole text: it
-- makes no call of the action for the empty text; otherwise the pieces, none of which holds the
-- delimiter, joined by the delimiter are the text, or the text without one delimiter at its end.
pub split_each_substr-Splits :
    (src : Bytes) (delim : ℕ) → Splits delim src (split_each_substr src delim)
unfolding split_each_substr
split_each_substr-Splits src delim = split_fuel-Splits (length src) delim src (omega arith)
