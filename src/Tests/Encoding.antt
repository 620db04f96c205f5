-- ===== src/Tests/Encoding.antt =====
-- An encoder of ledger entries with the documented behaviour: its pieces stand between quotes, and every
-- code point of a text is moved up, past all white space.
use natsx.Base.{
  ℕ, ◌+◌, ◌-◌, Bool, true, false, ◌||◌, List, [], ◌∷◌, ◌≡◌, refl, arith, any, any-append, All,
  text_eq, ◌==◌,
}
use natsx.Base.Text.{Text, codes, is_space, trim_space, split, join}
use natsx.Base.Text.Laws.{lacks, split-join, trim-none}
use natsx.Errors.{Error, nil, foreign, unnamed}
use natsx.GoalRuntime.Data.{Json, Encodes, LedgerEntry, newline}

abbrev quote : ℕ
quote = 34

abbrev raise : Text → Text
raise [] = []
raise (c ∷ s) = (c + 20000) ∷ raise s

abbrev lower : Text → Text
lower [] = []
lower (c ∷ s) = (c - 20000) ∷ lower s

lower-raise : (s : Text) → lower (raise s) ≡ s
lower-raise [] = refl
lower-raise (c ∷ s) = ground (arith, lower-raise s)

-- Nothing that is raised is a quote or a space.
abbrev quiet : ℕ → Bool
quiet c = is_space c || c == quote

any-raise : (s : Text) → any is_space (raise s) ≡ false
unfolding is_space
any-raise [] = refl
any-raise (c ∷ s) = ground (arith, any-raise s)

lacks-raise : (s : Text) → lacks quote (raise s) ≡ false
lacks-raise [] = refl
lacks-raise (c ∷ s) = ground (arith, lacks-raise s)

abbrev bool_piece : Bool → Text
bool_piece true = codes "t"
bool_piece false = codes "f"

abbrev pieces : LedgerEntry → List Text
pieces e =
    codes "["
    ∷ raise e.schema_version
    ∷ raise e.goal_id
    ∷ raise e.command
    ∷ raise e.status
    ∷ raise e.mva_status
    ∷ bool_piece e.blocking
    ∷ raise e.evidence_pack_path
    ∷ codes "]"
    ∷ []

abbrev encode : LedgerEntry → Text
encode e = join (pieces e) quote

abbrev blank_entry : LedgerEntry
blank_entry = record {
  schema_version = [];
  goal_id = [];
  command = [];
  status = [];
  mva_status = [];
  blocking = false;
  evidence_pack_path = [];
}

abbrev decode_pieces : List Text → LedgerEntry × Error
decode_pieces (_ ∷ v ∷ g ∷ c ∷ s ∷ m ∷ b ∷ p ∷ _ ∷ []) = (
  record {
    schema_version = lower v;
    goal_id = lower g;
    command = lower c;
    status = lower s;
    mva_status = lower m;
    blocking = text_eq b (codes "t");
    evidence_pack_path = lower p;
  },
  nil,
)
decode_pieces _ = (blank_entry, foreign unnamed (codes "unexpected end of JSON input") nil)

abbrev pub sample_json : Json
sample_json = record {
  marshal = λ e. (encode e, nil);
  unmarshal = λ s. decode_pieces (split s quote);
  marshal_indent = λ r. (codes "{}", nil);
}

any-join :
    (p : ℕ → Bool) (sep : ℕ) (ps : List Text)
    → p sep ≡ false
    → All (λ t. any p t ≡ false) ps
    → any p (join ps sep) ≡ false
unfolding join
any-join p sep [] h _ = refl
any-join p sep (t ∷ []) h (ht, _) = ht
any-join p sep (t ∷ u ∷ ts) h (ht, hs) =
    ground (arith, any-append p t (sep ∷ join (u ∷ ts) sep), any-join p sep (u ∷ ts) h hs, h, ht)

bool_lacks : (b : Bool) → lacks quote (bool_piece b) ≡ false
bool_lacks true = refl
bool_lacks false = refl

bool_no_space : (b : Bool) → any is_space (bool_piece b) ≡ false
unfolding is_space
bool_no_space true = refl
bool_no_space false = refl

bool_back : (b : Bool) → text_eq (bool_piece b) (codes "t") ≡ b
bool_back true = refl
bool_back false = refl

no_space : (e : LedgerEntry) → any is_space (encode e) ≡ false
unfolding is_space
no_space e = any-join is_space quote (pieces e) refl (
  refl,
  (
    any-raise e.schema_version,
    (
      any-raise e.goal_id,
      (
        any-raise e.command,
        (
          any-raise e.status,
          (
            any-raise e.mva_status,
            (bool_no_space e.blocking, (any-raise e.evidence_pack_path, (refl, tt))),
          ),
        ),
      ),
    ),
  ),
)

newline_space : (s : Text) → any is_space s ≡ false → any (λ c. c == newline) s ≡ false
unfolding is_space
newline_space [] h = refl
newline_space (c ∷ s) h = ground (arith, newline_space s)

split-encode : (e : LedgerEntry) → split (encode e) quote ≡ pieces e
split-encode e = split-join quote (codes "[") _ (
  refl,
  (
    lacks-raise e.schema_version,
    (
      lacks-raise e.goal_id,
      (
        lacks-raise e.command,
        (
          lacks-raise e.status,
          (
            lacks-raise e.mva_status,
            (bool_lacks e.blocking, (lacks-raise e.evidence_pack_path, (refl, tt))),
          ),
        ),
      ),
    ),
  ),
)

decode-pieces : (e : LedgerEntry) → decode_pieces (pieces e) ≡ (e, nil)
decode-pieces e = rw (
  lower-raise e.schema_version,
  lower-raise e.goal_id,
  lower-raise e.command,
  lower-raise e.status,
  lower-raise e.mva_status,
  bool_back e.blocking,
  lower-raise e.evidence_pack_path,
)

decode_encode : (e : LedgerEntry) → decode_pieces (split (encode e) quote) ≡ (e, nil)
decode_encode e = rw (split-encode e) (decode-pieces e)

pub sample_json-Encodes : Encodes sample_json
unfolding join
sample_json-Encodes = record {
  one_line = λ e. newline_space (encode e) (no_space e);
  trimmed = λ e. trimmed_lem e;
  not_empty = λ e. refl;
  unmarshal-marshal = decode_encode;
}
  where
    trimmed_lem : (e : LedgerEntry) → trim_space (encode e) ≡ encode e
    trimmed_lem e = unfold trim_space in trim-none is_space (encode e) (no_space e)
