-- ===== src/Nats/Header.antt =====
-- `nats.Header` is a Go map from texts to lists of texts. Its methods are code of nats.go: the record
-- takes them as parameters, with what their documentation says of them.
use natsx.Base.{ℕ, List, [], ◌∷◌, ◌++◌, Option, none, some, ◌≡◌, refl, lookup, put}
use natsx.Base.Text.{Text}

abbrev pub Header : Type 0
Header = List (Text × List Text)

-- `h[key]`, the nil slice at a missing key
abbrev pub or_nil : Option (List Text) → List Text
or_nil none = []
or_nil (some vs) = vs

abbrev pub values : Text → Header → List Text
values key h = or_nil (lookup key h)

abbrev pub first : List Text → Text
first [] = []
first (v ∷ _) = v

-- `Set` replaces the values of a key by one, `Add` appends one, `Get` gives the first one or the
-- empty text; all three are case-sensitive.
pub record HeaderApi : Type 0 where
  pub set : Header → Text → Text → Header
  pub add : Header → Text → Text → Header
  pub get : Header → Text → Text
  pub set_lem : (h : Header) (key value : Text) → set h key value ≡ put key (value ∷ []) h
  pub add_lem :
      (h : Header) (key value : Text) → add h key value ≡ put key (values key h ++ value ∷ []) h
  pub get_lem : (h : Header) (key : Text) → get h key ≡ first (values key h)

-- `nats.Msg`, as far as the code uses it.
pub record Msg : Type 0 where
  pub subject : Text
  pub reply : Text
  pub header : Header
  pub payload : List ℕ

-- An implementation with the documented behaviour.
abbrev pub plain_headers : HeaderApi
plain_headers = record {
  set = λ h key value. put key (value ∷ []) h;
  add = λ h key value. put key (values key h ++ value ∷ []) h;
  get = λ h key. first (values key h);
  set_lem = λ h key value. refl;
  add_lem = λ h key value. refl;
  get_lem = λ h key. refl;
}
