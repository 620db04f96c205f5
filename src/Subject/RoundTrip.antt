-- ===== src/Subject/RoundTrip.antt =====
-- About `BuildSubject` followed by `ParseSubject`.
use natsx.Base.{ℕ, zero, suc, ◌≤◌, [], ◌∷◌, ◌++◌, ◌≡◌, refl, sym, ◌∙◌, ◌↔◌, arith, ℤ, pos, negsuc}
use natsx.Base.Text.{Text, codes, trim_space, join}
use natsx.Base.Decimal.{itoa, max_int64}
use natsx.Base.Decimal.Laws.{atoi-itoa, atoi_plus}
use natsx.Errors.Chain.{returning-eq-ok}
use natsx.Errors.{ok}
use natsx.Subject.{dot, SubjectParts, validate_tokens, build_subject, parse_subject}
use natsx.Subject.Tokens.{IsToken, validate_tokens_iff}
use natsx.Subject.Parse.{parse_subject_iff}

pos-injective : {m n : ℕ} → pos m ≡ pos n → m ≡ n
pos-injective h = ground arith

-- `BuildSubject` succeeds exactly at a positive version and three parts whose trims are tokens, and
-- joins the trims and the version.
pub build_subject_iff :
    (domain resource action : Text) (version : ℤ) (subject : Text)
    → (build_subject domain resource action version ≡ ok subject) ↔ (
        (n : ℕ) × (version ≡ pos (suc n))
        × IsToken (trim_space domain)
        × IsToken (trim_space resource)
        × IsToken (trim_space action)
        × (subject
            ≡ join
                (trim_space domain
                  ∷ trim_space resource
                  ∷ trim_space action
                  ∷ (codes "v" ++ itoa (pos (suc n)))
                  ∷ [])
                dot))
unfolding build_subject
build_subject_iff domain resource action (negsuc k) subject = (λ h. cc, λ h. absurd (cc h.1))
build_subject_iff domain resource action (pos zero) subject =
    (λ h. cc, λ h. absurd (ground (arith, h.1)))
build_subject_iff domain resource action (pos (suc k)) subject = (
  λ h.
      let (valid, same) =
        returning-eq-ok
          (validate_tokens (codes "natsx.BuildSubject") (domain ∷ resource ∷ action ∷ [])) _ h in
      let tokens =
        (validate_tokens_iff (codes "natsx.BuildSubject") (domain ∷ resource ∷ action ∷ [])).0
          valid in
      (k, refl, tokens.0, tokens.1.0, tokens.1.1.0, ground arith),
  λ (n, same, hd, hr, ha, e).
      rw
        ((validate_tokens_iff (codes "natsx.BuildSubject") (domain ∷ resource ∷ action ∷ [])).1
          (hd, (hr, (ha, tt))))
        (ground arith),
)

-- Every subject that `BuildSubject` returns for a version that an `int` of 64 bits holds is parsed
-- to the trimmed parts and that version.
pub parse_subject-build_subject :
    (domain resource action : Text) (n : ℕ) {subject : Text}
    → n ≤ max_int64
    → build_subject domain resource action (pos n) ≡ ok subject
    → parse_subject subject
      ≡ ok (record {
        domain = trim_space domain;
        resource = trim_space resource;
        action = trim_space action;
        version = pos n;
      })
parse_subject-build_subject domain resource action n {subject} fits built =
    let (k, same, hd, hr, ha, e) =
      (build_subject_iff domain resource action (pos n) subject).0 built in
    (parse_subject_iff subject _).1 (
      hd,
      hr,
      ha,
      (itoa (pos (suc k)), k, e, same, atoi-itoa (suc k) (omega (arith, pos-injective same))),
    )

-- For all tokens and every `int` version that is positive, `ParseSubject` returns for the text with
-- `v+N` in place of `vN` what it returns for that with `vN`.
pub parse_subject_plus :
    (d r a : Text) (n : ℕ)
    → IsToken d
    → IsToken r
    → IsToken a
    → suc n ≤ max_int64
    → parse_subject (join (d ∷ r ∷ a ∷ (codes "v+" ++ itoa (pos (suc n))) ∷ []) dot)
      ≡ parse_subject (join (d ∷ r ∷ a ∷ (codes "v" ++ itoa (pos (suc n))) ∷ []) dot)
parse_subject_plus d r a n hd hr ha fits =
    let parts : SubjectParts = record {
      domain = d;
      resource = r;
      action = a;
      version = pos (suc n);
    } in
    (parse_subject_iff _ parts).1
      (hd, hr, ha, (b'+' ∷ itoa (pos (suc n)), n, refl, refl, atoi_plus (suc n) fits))
    ∙ sym (
        (parse_subject_iff _ parts).1
          (hd, hr, ha, (itoa (pos (suc n)), n, refl, refl, atoi-itoa (suc n) fits)))
