-- ===== src/Contracts/UserId/Parsing.antt =====
-- What `parseUserId` accepts: the text is the three parts joined by the separator.
use ota_api.Prelude.{
  Lacks, Option-cases, Text, [], ap, arith, drop, drop-add, drop-suc-length-append, find,
  find-append, find-splits, if◌then◌else◌, index_of, inl, inr, is_empty, length, list_beq_iff, none,
  refl, slice, some, subst, suc, take, take-length-append, true, ℕ, ◌++◌, ◌+◌, ◌-◌, ◌<◌, ◌↔◌, ◌∷◌,
  ◌≡◌, ◌≢◌, ◌≤◌,
}
use ota_api.Contracts.UserId.{user_id_matches_context, ParsedUserId, build, parse_user_id}

-- `appName:platform:businessUserId`
abbrev pub print_user_id : ParsedUserId → Text
print_user_id p = p.app_name ++ b':' ∷ (p.platform ++ b':' ∷ p.business_user_id)

pub record IsComposite (p : ParsedUserId) : Type 0 where
  pub app_name_some : p.app_name ≢ []
  pub app_name_plain : Lacks b':' p.app_name
  pub platform_some : p.platform ≢ []
  pub platform_plain : Lacks b':' p.platform
  pub business_some : p.business_user_id ≢ []
  pub short : length (print_user_id p) ≤ 191

module _ (p : ParsedUserId) where
  abbrev second : ℕ
  second = length p.platform + suc (length p.app_name)

  after_first :
      drop (suc (length p.app_name)) (print_user_id p) ≡ p.platform ++ b':' ∷ p.business_user_id
  after_first = drop-suc-length-append p.app_name _ b':'

  after_second : drop (suc second) (print_user_id p) ≡ p.business_user_id
  after_second =
      let e : suc second ≡ suc (length p.platform) + suc (length p.app_name) = omega arith in
      rw
        (
          e,
          drop-add (suc (length p.platform)) (suc (length p.app_name)) (print_user_id p),
          after_first,
        )
        (drop-suc-length-append p.platform p.business_user_id b':')

  platform_slice : slice (suc (length p.app_name)) second (print_user_id p) ≡ p.platform
  platform_slice =
      let e : second - suc (length p.app_name) ≡ length p.platform = omega arith in
      rw (e, after_first) (take-length-append p.platform _)

  app_name_slice : slice 0 (length p.app_name) (print_user_id p) ≡ p.app_name
  app_name_slice =
      let e : length p.app_name - 0 ≡ length p.app_name = omega arith in
      rw e (take-length-append p.app_name _)

  first_index : Lacks b':' p.app_name → index_of b':' (print_user_id p) 0 ≡ some (length p.app_name)
  first_index h =
      let e : length p.app_name + 0 ≡ length p.app_name = omega arith in
      rw (find-append b':' p.app_name _ h) (ap some e)

  second_index :
      Lacks b':' p.platform
      → index_of b':' (print_user_id p) (suc (length p.app_name)) ≡ some second
  second_index h = rw (after_first, find-append b':' p.platform p.business_user_id h)

  build-print :
      p.business_user_id ≢ [] → build (print_user_id p) (length p.app_name) second ≡ some p
  unfolding build
  build-print h = rw (after_second, platform_slice, app_name_slice) (ground arith)

  parse-print : IsComposite p → parse_user_id (print_user_id p) ≡ some p
  unfolding parse_user_id
  parse-print v = ground (
    arith,
    first_index v.app_name_plain,
    second_index v.platform_plain,
    build-print v.business_some,
  )

-- A result of a printed text is what was printed.
inversion :
    (q p : ParsedUserId)
    → Lacks b':' q.app_name
    → Lacks b':' q.platform
    → parse_user_id (print_user_id q) ≡ some p
    → (p ≡ q) × IsComposite q
unfolding parse_user_id build
inversion q p ha hp h =
    let e : parse_user_id (print_user_id q) ≡ some p = h in
    let f : build (print_user_id q) (length q.app_name) (second q)
        ≡ (if is_empty q.business_user_id then none else some q) =
      rw (after_second q, platform_slice q, app_name_slice q) refl in
    ground (arith, first_index q ha, second_index q hp, f)

ne_nil_of_pos : (t : Text) → 0 < length t → t ≢ []
ne_nil_of_pos [] h = elim h [ ]
ne_nil_of_pos (c ∷ t) h = cc

-- The three parts of a text that has two separators.
parts : (value : Text) (a b : ℕ) → ParsedUserId
parts value a b = record {
  app_name = take a value;
  platform = take b (drop (suc a) value);
  business_user_id = drop (suc b) (drop (suc a) value);
}

print-parts :
    (value : Text) (a b : ℕ)
    → find b':' value ≡ some a
    → find b':' (drop (suc a) value) ≡ some b
    → print_user_id (parts value a b) ≡ value
unfolding parts
print-parts value a b ha hb =
    let (ea, _, _) = find-splits b':' value ha in
    let (eb, _, _) = find-splits b':' (drop (suc a) value) hb in rw (← eb) (rw (← ea))

separated :
    (value : Text) (p : ParsedUserId)
    → parse_user_id value ≡ some p
    → IsComposite p × (print_user_id p ≡ value)
unfolding parse_user_id parts
separated value p h = elim (Option-cases (find b':' value)) [
  | inl ha ↦ absurd (ground arith)
  | inr (a, ha) ↦ elim (Option-cases (find b':' (drop (suc a) value))) [
    | inl hb ↦ absurd (ground arith)
    | inr (b, hb) ↦
        let (_, la, _) = find-splits b':' value ha in
        let (_, lb, _) = find-splits b':' (drop (suc a) value) hb in
        let e : print_user_id (parts value a b) ≡ value = print-parts value a b ha hb in
        let (q, v) = inversion (parts value a b) p la lb (rw e h) in (rw q v, rw q e)
  ]
]

-- `parseUserId` returns `p` exactly for the text `appName:platform:businessUserId` of `p`, where no
-- part is empty, the first two hold no separator, and the text has at most 191 code units.
pub parse_user_id_iff :
    (value : Text) (p : ParsedUserId)
    → (parse_user_id value ≡ some p) ↔ (IsComposite p × (print_user_id p ≡ value))
parse_user_id_iff value p =
    (separated value p, λ (v, e). subst (λ t. parse_user_id t ≡ some p) e (parse-print p v))

abbrev pub composite : Text → Text → Text → ParsedUserId
composite app_name platform business = record {
  app_name = app_name;
  platform = platform;
  business_user_id = business;
}

matching :
    (value app_name platform : Text) (p : ParsedUserId)
    → parse_user_id value ≡ some p
    → user_id_matches_context value app_name platform ≡ true
    → p ≡ composite app_name platform p.business_user_id
unfolding user_id_matches_context
matching value app_name platform p e h =
    ground (arith, list_beq_iff p.app_name app_name, list_beq_iff p.platform platform)

-- A user identifier belongs to an application and a platform exactly when it is their names and a
-- business identifier, joined by the separator and within the length limit.
pub user_id_matches_context_iff :
    (value app_name platform : Text)
    → (user_id_matches_context value app_name platform ≡ true) ↔ (
        (business : Text) × IsComposite (composite app_name platform business)
        × (print_user_id (composite app_name platform business) ≡ value))
unfolding user_id_matches_context
user_id_matches_context_iff value app_name platform = (
  λ h. elim (Option-cases (parse_user_id value)) [
    | inl e ↦ absurd (ground arith)
    | inr (p, e) ↦
        let q = matching value app_name platform p e h in
        let (v, w) = separated value p e in (p.business_user_id, rw q at v, rw q at w)
  ],
  λ (b, v, w).
      let e = (parse_user_id_iff value (composite app_name platform b)).1 (v, w) in
      ground (arith, list_beq_iff app_name app_name, list_beq_iff platform platform),
)
