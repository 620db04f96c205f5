-- ===== src/Envelope/Headers.antt =====
-- What the header of a built message holds, key by key.
use natsx.Base.{
  Bool, true, false, ◌&&◌, not, List, [], ◌∷◌, ◌++◌, append_assoc, append-nil, none, if◌then◌else◌,
  is_empty, ◌≡◌, refl, sym, ap, arith, All, lookup, put, lookup-put, text_eq, text_eq_iff,
  text_eq_refl, map, Bool-cases, inl, inr,
}
use natsx.Base.Text.{Text, equal_fold, fold}
use natsx.Nats.Header.{Header, HeaderApi, values}
use natsx.Envelope.{
  from_header, fold_header, set_header, first_header, add_all, to_header_from, to_header,
}

pub from_header_lem : (h : Header) → from_header h ≡ h
unfolding from_header
from_header_lem [] = refl
from_header_lem ((key, vals) ∷ rest) = ap (λ r. (key, vals) ∷ r) (from_header_lem rest)

values-put :
    (k j : Text) (vs : List Text) (h : Header)
    → values j (put k vs h) ≡ (if text_eq k j then vs else values j h)
values-put k j vs h = rw lookup-put (ground arith)

-- No key of the map folds to `key`.
abbrev pub Avoids : Text → Header → Type 0
Avoids key h = All (λ entry. equal_fold entry.0 key ≡ false) h

-- The keys of a Go map are distinct.
abbrev pub IsUnique : Header → Type 0
IsUnique [] = Unit
IsUnique ((key, vals) ∷ rest) = (lookup key rest ≡ none) × IsUnique rest

Avoids-put :
    (key k : Text) (vs : List Text) (h : Header)
    → Avoids key h
    → equal_fold k key ≡ false
    → Avoids key (put k vs h)
unfolding put
Avoids-put key k vs [] _ e = (e, tt)
Avoids-put key k vs ((j, w) ∷ h) (p, hs) e = elim (Bool-cases (text_eq j k)) [
  | inl same ↦ rw same (e, hs)
  | inr other ↦ rw other (p, Avoids-put key k vs h hs e)
]

equal_fold_refl : (s : Text) → equal_fold s s ≡ true
unfolding equal_fold
equal_fold_refl s = text_eq_refl (map fold s)

lookup-Avoids : (key : Text) (h : Header) → Avoids key h → lookup key h ≡ none
unfolding lookup
lookup-Avoids key [] _ = refl
lookup-Avoids key ((j, w) ∷ h) (p, hs) = elim (Bool-cases (text_eq j key)) [
  | inl same ↦ absurd (differ (equal_fold_refl key) (rw ((text_eq_iff j key).0 same) at p))
  | inr other ↦ rw other (lookup-Avoids key h hs)
]
  where
    differ : {b : Bool} → b ≡ true → b ≡ false → ⊥
    differ t f = cc

fold_header-Avoids : (key : Text) (h : Header) → Avoids key h → fold_header h key ≡ []
unfolding fold_header
fold_header-Avoids key [] _ = refl
fold_header-Avoids key ((j, w) ∷ h) (p, hs) = rw (p, fold_header-Avoids key h hs)

module _ (api : HeaderApi) where
  pub values-set_header :
      (h : Header) (k j value : Text)
      → values j (set_header api h k value)
        ≡ (if not (is_empty value) && text_eq k j then value ∷ [] else values j h)
  unfolding set_header
  values-set_header h k j [] = refl
  values-set_header h k j (c ∷ v) = rw api.set_lem (values-put k j _ h)

  values-add_all :
      (h : Header) (k j : Text) (vs : List Text)
      → values j (add_all api h k vs) ≡ (if text_eq k j then values j h ++ vs else values j h)
  unfolding add_all
  values-add_all h k j [] = ground (arith, append-nil (values j h))
  values-add_all h k j (v ∷ vs) = elim (Bool-cases (text_eq k j)) [
    | inl same ↦
        rw (values-add_all (api.add h k v) k j vs, api.add_lem, values-put k j, same)
          (rw ((text_eq_iff k j).0 same) (append_assoc (values j h) (v ∷ []) vs))
    | inr other ↦
        rw (values-add_all (api.add h k v) k j vs, api.add_lem, values-put k j, other) refl
  ]

  values-to_header_from :
      (h m : Header) (j : Text)
      → IsUnique m
      → values j (to_header_from api h m) ≡ values j h ++ values j m
  unfolding to_header_from lookup
  values-to_header_from h [] j _ = sym (append-nil _)
  values-to_header_from h ((k, vs) ∷ m) j (new, unique) = elim (Bool-cases (text_eq k j)) [
    | inl same ↦
        rw (values-to_header_from (add_all api h k vs) m j unique, values-add_all h k j vs, same)
          (rw (← (text_eq_iff k j).0 same, new) (append-nil _))
    | inr other ↦
        rw (values-to_header_from (add_all api h k vs) m j unique, values-add_all h k j vs, other)
  ]

  -- `toHeader` keeps the values of every key.
  pub values-to_header :
      (m : Header) (j : Text) → IsUnique m → values j (to_header api m) ≡ values j m
  unfolding to_header lookup
  values-to_header m j unique = values-to_header_from [] m j unique

  pub Avoids-set_header :
      (key : Text) (h : Header) (k value : Text)
      → Avoids key h
      → equal_fold k key ≡ false
      → Avoids key (set_header api h k value)
  unfolding set_header
  Avoids-set_header key h k [] a e = a
  Avoids-set_header key h k (c ∷ v) a e = rw api.set_lem (Avoids-put key k _ h a e)

  Avoids-add_all :
      (key : Text) (h : Header) (k : Text) (vs : List Text)
      → Avoids key h
      → equal_fold k key ≡ false
      → Avoids key (add_all api h k vs)
  unfolding add_all
  Avoids-add_all key h k [] a e = a
  Avoids-add_all key h k (v ∷ vs) a e =
      Avoids-add_all key (api.add h k v) k vs (rw api.add_lem (Avoids-put key k _ h a e)) e

  Avoids-to_header_from :
      (key : Text) (h m : Header)
      → Avoids key h
      → Avoids key m
      → Avoids key (to_header_from api h m)
  unfolding to_header_from
  Avoids-to_header_from key h [] a _ = a
  Avoids-to_header_from key h ((k, vs) ∷ m) a (e, es) =
      Avoids-to_header_from key (add_all api h k vs) m (Avoids-add_all key h k vs a e) es

  pub Avoids-to_header : (key : Text) (m : Header) → Avoids key m → Avoids key (to_header api m)
  unfolding to_header
  Avoids-to_header key m a = Avoids-to_header_from key [] m tt a

  pub first_header-Avoids : (key : Text) (h : Header) → Avoids key h → first_header api h key ≡ []
  unfolding first_header
  first_header-Avoids key h a = rw (api.get_lem, lookup-Avoids key h a) (fold_header-Avoids key h a)

  -- A value that the exact key holds is found.
  pub first_header_exact :
      (key value : Text) (h : Header)
      → values key h ≡ value ∷ []
      → is_empty value ≡ false
      → first_header api h key ≡ value
  unfolding first_header
  first_header_exact key value h e filled = rw (api.get_lem, e, filled)
