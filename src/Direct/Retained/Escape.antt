-- ===== src/Direct/Retained/Escape.antt =====
-- What is escaped and split again.
use smart_dashboard.Base.{
  ◌≡◌, ◌∙◌, ℕ, refl, sym, ap, ap₂, inl, inr, false, List, [], ◌∷◌, ◌++◌, All, ◌≢◌, beq_ne, ◌==◌,
  arith, append_assoc, append-nil, Bool-cases,
}
use smart_dashboard.Direct.Retained.{
  bar, backslash, is_escaped, escape, unescape, split_escaped, separator, join, unpack,
}

unescape-escape : (s : List ℕ) → unescape false (escape s) ≡ s
unfolding unescape escape
unescape-escape [] = refl
unescape-escape (c ∷ cs) = ground (arith, unescape-escape cs)

split-append_escape :
    (current s rest : List ℕ)
    → split_escaped false current (escape s ++ rest)
      ≡ split_escaped false (current ++ escape s) rest
unfolding split_escaped escape
split-append_escape current [] rest = rw (append-nil current)
split-append_escape current (c ∷ cs) rest = elim (Bool-cases (is_escaped c)) [
  | inl y ↦ rw y (
      split-append_escape (current ++ (backslash ∷ c ∷ [])) cs rest
      ∙ ap (λ x. split_escaped false x rest)
          (append_assoc current (backslash ∷ c ∷ []) (escape cs)))
  | inr n ↦
      rw (n, (plain c n).0, (plain c n).1)
        (split-append_escape (current ++ (c ∷ [])) cs rest
          ∙ ap (λ x. split_escaped false x rest) (append_assoc current (c ∷ []) (escape cs)))
]
  where
    plain : (c : ℕ) → is_escaped c ≡ false → ((c == backslash) ≡ false) × ((c == bar) ≡ false)
    plain c n = ground arith

-- A line of fields, as the store's file has them.
unfoldable pub line : List ℕ → List (List ℕ) → List ℕ
line f [] = escape f
line f (g ∷ gs) = escape f ++ (bar ∷ line g gs)

-- Splitting a line gives back the fields that it was made of, whatever bytes are in them.
pub split-line : (f : List ℕ) (fs : List (List ℕ)) → split_escaped false [] (line f fs) ≡ f ∷ fs
unfolding line split_escaped
split-line f [] =
    ap (split_escaped false []) (sym (append-nil (escape f)))
    ∙ split-append_escape [] f []
    ∙ ap (λ x. x ∷ []) (unescape-escape f)
split-line f (g ∷ gs) =
    split-append_escape [] f (bar ∷ line g gs) ∙ ap₂ ◌∷◌ (unescape-escape f) (split-line g gs)

unpack-append :
    (current s rest : List ℕ)
    → All (λ c. c ≢ separator) s
    → unpack current (s ++ rest) ≡ unpack (current ++ s) rest
unfolding unpack
unpack-append current [] rest h = rw (append-nil current)
unpack-append current (c ∷ cs) rest h = rw (beq_ne c separator h.0) (
    unpack-append (current ++ (c ∷ [])) cs rest h.1
    ∙ ap (λ x. unpack x rest) (append_assoc current (c ∷ []) cs))

-- An array is unpacked from what it was joined to, if no item has a separator.
pub unpack-join :
    (s : List ℕ) (ss : List (List ℕ))
    → All (λ c. c ≢ separator) s
    → All (λ x. All (λ c. c ≢ separator) x) ss
    → unpack [] (join (s ∷ ss)) ≡ s ∷ ss
unfolding join unpack
unpack-join s [] h k = ap (unpack []) (sym (append-nil s)) ∙ unpack-append [] s [] h
unpack-join s (t ∷ ss) h k =
    unpack-append [] s (separator ∷ join (t ∷ ss)) h ∙ ap (◌∷◌ s) (unpack-join t ss k.0 k.1)
