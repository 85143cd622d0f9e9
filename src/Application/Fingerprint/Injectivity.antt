-- ===== src/Application/Fingerprint/Injectivity.antt =====
-- Queries with the same canonical bytes are the same query.
use bif.Base.{
  ℕ, suc, ◌+◌, ◌*◌, ◌%◌, ◌^◌, ◌<◌, ◌≡◌, refl, sym, ap, ◌∙◌, List, [], ◌∷◌, ◌++◌, append_assoc,
  append-nil, Option, none, some, length, arith, map,
}
use bif.Base.Text.{Text, Bytes, codes, utf8}
use bif.Base.Text.Encoding.{append-injective}
use bif.Domain.Identifier.{RequesterId, ProjectId}
use bif.Domain.Item.{Status, Priority}
use bif.Application.Payload.{be_bytes}
use bif.Application.Payload.Fields.{field, IsField, field-injective}
use bif.Application.Listing.{ItemListOrdering, priority_rank}
use bif.Application.ReadSemantics.{
  EffectiveItemFilters, AssigneeFilter, any_assignee, unassigned, assigned,
}
use bif.Application.Fingerprint.{
  ItemQueryFingerprintInput, ItemReadOperation, ItemProjectionKind, operation_tag, projection_tag,
  ordering_tag, status_tag, be_bytes_u32, append_string, append_optional_string, append_statuses,
  append_assignee, append_priority, project_text, requester_text, canonical_bytes,
}

-- the bytes of a string, of an assignee and of a priority
abbrev string : Text → Bytes
string t = be_bytes (length (utf8 t)) ++ utf8 t

abbrev assignee : AssigneeFilter → Bytes
assignee any_assignee = 0 ∷ []
assignee (assigned a) = 1 ∷ string a.as_str
assignee unassigned = 2 ∷ []

abbrev priority : Option Priority → Bytes
priority none = 0 ∷ []
priority (some p) = 1 ∷ priority_rank (some p) ∷ []

abbrev filter_bytes : EffectiveItemFilters → Bytes
filter_bytes f =
    map status_tag f.statuses
    ++ (field (project_text f.project)
        ++ (field (requester_text f.requester)
            ++ (assignee f.assignee ++ (priority f.priority ++ (field f.text ++ [])))))

append_optional_string-field :
    (b : Bytes) (o : Option Text) → append_optional_string b o ≡ b ++ field o
unfolding append_optional_string append_string field
append_optional_string-field b none = refl
append_optional_string-field b (some t) = simp append_assoc

append_statuses-map : (b : Bytes) (ss : List Status) → append_statuses b ss ≡ b ++ map status_tag ss
unfolding append_statuses
append_statuses-map b [] = sym (append-nil b)
append_statuses-map b (s ∷ ss) =
    append_statuses-map (b ++ status_tag s ∷ []) ss
    ∙ append_assoc b (status_tag s ∷ []) (map status_tag ss)

append_assignee-assignee : (b : Bytes) (f : AssigneeFilter) → append_assignee b f ≡ b ++ assignee f
unfolding append_assignee append_string
append_assignee-assignee b any_assignee = refl
append_assignee-assignee b unassigned = refl
append_assignee-assignee b (assigned a) = simp append_assoc

append_priority-priority : (b : Bytes) (p : Option Priority) → append_priority b p ≡ b ++ priority p
unfolding append_priority
append_priority-priority b none = refl
append_priority-priority b (some p) = append_assoc b (1 ∷ []) (priority_rank (some p) ∷ [])

-- the layout
canonical_bytes-layout :
    (q : ItemQueryFingerprintInput)
    → canonical_bytes q
      ≡ (codes "BIF:item-query:1" ++ 0 ∷ [])
        ++ (operation_tag q.operation
            ∷ (string q.store_identity
                ++ (be_bytes_u32 q.projection_schema_version
                    ++ (projection_tag q.projection
                        ∷ ordering_tag q.ordering
                        ∷ (length q.filters.statuses % 2 ^ 8)
                        ∷ filter_bytes q.filters))))
unfolding canonical_bytes
canonical_bytes-layout q = simp (
  append_optional_string-field, append_statuses-map, append_assignee-assignee,
  append_priority-priority, append_assoc, append-nil,
)

cons-injective : (x y : ℕ) (r s : Bytes) → ◌≡◌ {A = Bytes} (x ∷ r) (y ∷ s) → (x ≡ y) × (r ≡ s)
cons-injective x y r s h = ground arith

some-injective : (t u : Text) → ◌≡◌ {A = Option Text} (some t) (some u) → t ≡ u
some-injective t u h = ground arith

string-injective :
    (t u : Text) (r s : Bytes)
    → IsField (some t)
    → IsField (some u)
    → string t ++ r ≡ string u ++ s
    → (t ≡ u) × (r ≡ s)
unfolding field
string-injective t u r s ht hu h =
    let (e, rest) = field-injective (some t) (some u) r s ht hu (ap (λ (x : Bytes). 1 ∷ x) h) in
    (some-injective t u e, rest)

read_u32 : Bytes → ℕ
read_u32 (a ∷ b ∷ c ∷ d ∷ r) = ((a * 256 + b) * 256 + c) * 256 + d
read_u32 _ = 0

be_bytes_u32-injective :
    (m n : ℕ) (r s : Bytes)
    → m < 2 ^ 32
    → n < 2 ^ 32
    → be_bytes_u32 m ++ r ≡ be_bytes_u32 n ++ s
    → (m ≡ n) × (r ≡ s)
unfolding be_bytes_u32 read_u32
be_bytes_u32-injective m n r s hm hn h =
    let same = ap read_u32 h in
    (omega arith, (append-injective (be_bytes_u32 m) (be_bytes_u32 n) r s refl h).1)

status_tag-injective : (s t : Status) → status_tag s ≡ status_tag t → s ≡ t
status_tag-injective s t h = ground arith

length-tags : (ss : List Status) → length (map status_tag ss) ≡ length ss
length-tags [] = refl
length-tags (s ∷ ss) = ap suc (length-tags ss)

tags-injective : (ss ts : List Status) → map status_tag ss ≡ map status_tag ts → ss ≡ ts
tags-injective [] [] h = refl
tags-injective [] (t ∷ ts) h = absurd (ground arith)
tags-injective (s ∷ ss) [] h = absurd (ground arith)
tags-injective (s ∷ ss) (t ∷ ts) h =
    let (e, rest) =
      cons-injective (status_tag s) (status_tag t) (map status_tag ss) (map status_tag ts) h in
    let first = status_tag-injective s t e in
    let others = tags-injective ss ts rest in λ i. first i ∷ others i

-- texts that fit in memory
abbrev pub IsAssigneeField : AssigneeFilter → Type 0
IsAssigneeField (assigned a) = IsField (some a.as_str)
IsAssigneeField _ = Unit

assignee-injective :
    (f g : AssigneeFilter) (r s : Bytes)
    → IsAssigneeField f
    → IsAssigneeField g
    → assignee f ++ r ≡ assignee g ++ s
    → (f ≡ g) × (r ≡ s)
assignee-injective any_assignee any_assignee r s hf hg h = ground arith
assignee-injective any_assignee unassigned r s hf hg h = absurd (ground arith)
assignee-injective any_assignee (assigned b) r s hf hg h = absurd (ground arith)
assignee-injective unassigned any_assignee r s hf hg h = absurd (ground arith)
assignee-injective unassigned unassigned r s hf hg h = ground arith
assignee-injective unassigned (assigned b) r s hf hg h = absurd (ground arith)
assignee-injective (assigned a) any_assignee r s hf hg h = absurd (ground arith)
assignee-injective (assigned a) unassigned r s hf hg h = absurd (ground arith)
assignee-injective (assigned a) (assigned b) r s hf hg h =
    let (_, tail) = cons-injective 1 1 (string a.as_str ++ r) (string b.as_str ++ s) h in
    let (e, rest) = string-injective a.as_str b.as_str r s hf hg tail in
    ((λ i. assigned (record { as_str = e i })), rest)

priority-injective :
    (p q : Option Priority) (r s : Bytes) → priority p ++ r ≡ priority q ++ s → (p ≡ q) × (r ≡ s)
priority-injective p q r s h = ground arith

project_text-injective : (p q : Option ProjectId) → project_text p ≡ project_text q → p ≡ q
project_text-injective none none h = refl
project_text-injective none (some q) h = absurd (ground arith)
project_text-injective (some p) none h = absurd (ground arith)
project_text-injective (some p) (some q) h =
    let e = some-injective p.as_str q.as_str h in λ i. some (record { as_str = e i })

requester_text-injective : (p q : Option RequesterId) → requester_text p ≡ requester_text q → p ≡ q
requester_text-injective none none h = refl
requester_text-injective none (some q) h = absurd (ground arith)
requester_text-injective (some p) none h = absurd (ground arith)
requester_text-injective (some p) (some q) h =
    let e = some-injective p.as_str q.as_str h in λ i. some (record { as_str = e i })

-- a query whose parts fit their encoding
pub record IsEncodable (q : ItemQueryFingerprintInput) : Type 0 where
  pub store_identity : IsField (some q.store_identity)
  pub version : q.projection_schema_version < 2 ^ 32
  pub statuses : length q.filters.statuses < 2 ^ 8
  pub project : IsField (project_text q.filters.project)
  pub requester : IsField (requester_text q.filters.requester)
  pub assignee : IsAssigneeField q.filters.assignee
  pub text : IsField q.filters.text

filter_bytes-injective :
    (f g : EffectiveItemFilters)
    → length f.statuses ≡ length g.statuses
    → IsField (project_text f.project)
    → IsField (project_text g.project)
    → IsField (requester_text f.requester)
    → IsField (requester_text g.requester)
    → IsAssigneeField f.assignee
    → IsAssigneeField g.assignee
    → IsField f.text
    → IsField g.text
    → filter_bytes f ≡ filter_bytes g
    → f ≡ g
filter_bytes-injective f g n pf pg rf rg af ag tf tg h =
    let (tags, h1) =
      append-injective (map status_tag f.statuses) (map status_tag g.statuses) _ _
        (length-tags f.statuses ∙ n ∙ sym (length-tags g.statuses)) h in
    let (project, h2) =
      field-injective (project_text f.project) (project_text g.project) _ _ pf pg h1 in
    let (requester, h3) =
      field-injective (requester_text f.requester) (requester_text g.requester) _ _ rf rg h2 in
    let (held, h4) = assignee-injective f.assignee g.assignee _ _ af ag h3 in
    let (rank, h5) = priority-injective f.priority g.priority _ _ h4 in
    let (words, _) = field-injective f.text g.text _ _ tf tg h5 in
    let statuses = tags-injective f.statuses g.statuses tags in
    let projects = project_text-injective f.project g.project project in
    let requesters = requester_text-injective f.requester g.requester requester in
    λ i. record {
      statuses = statuses i;
      project = projects i;
      requester = requesters i;
      assignee = held i;
      priority = rank i;
      text = words i;
    }

operation_tag-injective : (m n : ItemReadOperation) → operation_tag m ≡ operation_tag n → m ≡ n
operation_tag-injective m n h = ground arith

projection_tag-injective : (m n : ItemProjectionKind) → projection_tag m ≡ projection_tag n → m ≡ n
projection_tag-injective m n h = ground arith

ordering_tag-injective : (m n : ItemListOrdering) → ordering_tag m ≡ ordering_tag n → m ≡ n
ordering_tag-injective m n h = ground arith

-- Queries with the same canonical bytes are the same query: the same operation, store, schema version,
-- normalized filters, order and projection, if their texts fit in memory, the version in 32 bits and
-- the count of the statuses in a byte.
pub canonical_bytes-injective :
    (q r : ItemQueryFingerprintInput)
    → IsEncodable q
    → IsEncodable r
    → canonical_bytes q ≡ canonical_bytes r
    → q ≡ r
canonical_bytes-injective q r fq fr h =
    let whole = sym (canonical_bytes-layout q) ∙ h ∙ canonical_bytes-layout r in
    let prefix = codes "BIF:item-query:1" ++ 0 ∷ [] in
    let (_, h1) = append-injective prefix prefix _ _ refl whole in
    let (operation, h2) = cons-injective _ _ _ _ h1 in
    let (store, h3) =
      string-injective q.store_identity r.store_identity _ _ fq.store_identity fr.store_identity
        h2 in
    let (version, h4) =
      be_bytes_u32-injective q.projection_schema_version r.projection_schema_version _ _ fq.version
        fr.version h3 in
    let (projection, h5) = cons-injective _ _ _ _ h4 in
    let (ordering, h6) = cons-injective _ _ _ _ h5 in
    let (count, h7) = cons-injective _ _ _ _ h6 in
    let filters =
      filter_bytes-injective q.filters r.filters (omega (count, fq.statuses, fr.statuses, arith))
        fq.project fr.project fq.requester fr.requester fq.assignee fr.assignee fq.text fr.text
        h7 in
    let op = operation_tag-injective q.operation r.operation operation in
    let kind = projection_tag-injective q.projection r.projection projection in
    let order = ordering_tag-injective q.ordering r.ordering ordering in
    λ i. record {
      operation = op i;
      store_identity = store i;
      projection_schema_version = version i;
      filters = filters i;
      ordering = order i;
      projection = kind i;
    }
