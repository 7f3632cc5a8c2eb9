-- ===== src/Response/Delimits.antt =====
-- What the framing of a response says of its head, on every branch of `response_framing` of
-- src/proxy.rs.
use mathlib.Core.List.{map}
use polyform_polyguard.Agreement.{Fault, upstream}
use polyform_polyguard.Base.{
  ℕ, ◌≤◌, Bool, true, false, not, some, List, [], ◌∷◌, ◌≡◌, ◌≢◌, ◌↔◌, refl, sym, ap, ◌∙◌, subst,
  arith, inl, inr, codes, Bool-cases, Option-cases, any, eq_ignore_ascii_case, to_ascii_lowercase,
  usize_max, Bytes, All, Result, ok, err,
}
use polyform_polyguard.Response.Decimal.{Spells, parse_decimal_iff}
use polyform_polyguard.Response.Fields.{
  Lacks, HasOne, ignore_case_iff, of_name, of_name-nil, Lacks-of_name, of_name-one, HasOne-of_name,
  All-of_name,
}
use polyform_polyguard.Response.{
  ResponseFraming, no_body, sized, chunked, close, parse_decimal, named, is_some_of, of_transfer,
  of_first, delimited_by, response_framing,
}
use polyform_polyguard.Types.{HeaderField, HeaderBlock}

-- A head describes its framing.
abbrev pub Delimits : HeaderBlock → Bool → ResponseFraming → Type 0
Delimits headers bodiless no_body = bodiless ≡ true
Delimits headers bodiless close =
    (bodiless ≡ false)
    × Lacks (codes "transfer-encoding") headers.fields
    × Lacks (codes "content-length") headers.fields
Delimits headers bodiless chunked =
    (bodiless ≡ false)
    × Lacks (codes "content-length") headers.fields
    × ((field : HeaderField) × HasOne (codes "transfer-encoding") field headers.fields
        × (map to_ascii_lowercase field.value ≡ codes "chunked"))
Delimits headers bodiless (sized n) =
    (bodiless ≡ false)
    × Lacks (codes "transfer-encoding") headers.fields
    × (¬ Lacks (codes "content-length") headers.fields)
    × All (λ field. field.name ≡ codes "content-length" → Spells field.value n) headers.fields
    × (n ≤ usize_max)

-- A framing is one that the head describes; where it describes none, upstream is at fault.
abbrev pub Frames : HeaderBlock → Bool → Result Fault ResponseFraming → Type 0
Frames headers bodiless (ok framing) = Delimits headers bodiless framing
Frames headers bodiless (err fault) =
    (fault ≡ upstream) × ((framing : ResponseFraming) → ¬ Delimits headers bodiless framing)

-- A field whose value is read as `n`
abbrev Reads : ℕ → HeaderField → Type 0
Reads n field = parse_decimal field.value ≡ some n

lengths_iff :
    (n : ℕ) (fields : List HeaderField)
    → (any (λ field. not (is_some_of (parse_decimal field.value) n)) fields ≡ false)
      ↔ All (Reads n) fields
lengths_iff n [] = (λ h. tt, λ h. refl)
lengths_iff n (field ∷ rest) =
    let later = lengths_iff n rest in
    elim (Option-cases (parse_decimal field.value)) [
      | inl e ↦ (λ h. absurd (ground (arith, e)), λ (p, ps). absurd (ground (arith, e)))
      | inr (m, e) ↦ (
        λ h. (ground (arith, e), later.0 (ground (arith, e))),
        λ (p, ps). (let d = later.1 ps in ground (arith, e)),
      )
    ]

Reads-Spells :
    (name : Bytes) (n : ℕ) (fields : List HeaderField)
    → All (λ field. field.name ≡ name → Reads n field) fields
    → All (λ field. field.name ≡ name → Spells field.value n) fields
Reads-Spells name n [] h = tt
Reads-Spells name n (field ∷ rest) (p, ps) =
    (λ e. ((parse_decimal_iff field.value n).0 (p e)).0, Reads-Spells name n rest ps)

Spells-Reads :
    (name : Bytes) (n : ℕ) (fields : List HeaderField)
    → n ≤ usize_max
    → All (λ field. field.name ≡ name → Spells field.value n) fields
    → All (λ field. field.name ≡ name → Reads n field) fields
Spells-Reads name n [] fits h = tt
Spells-Reads name n (field ∷ rest) fits (p, ps) =
    (λ e. (parse_decimal_iff field.value n).1 (p e, fits), Spells-Reads name n rest fits ps)

of_first-ok :
    (field : HeaderField) (rest : List HeaderField) (n : ℕ)
    → All (Reads n) (field ∷ rest)
    → of_first (parse_decimal field.value) (field ∷ rest) ≡ ok (sized n)
of_first-ok field rest n (p, ps) =
    rw p (let same = (lengths_iff n (field ∷ rest)).1 (p, ps) in ground arith)

-- What `of_first` gives is the number that all fields are read as.
of_first-eq-ok :
    (field : HeaderField) (rest : List HeaderField) (f : ResponseFraming)
    → of_first (parse_decimal field.value) (field ∷ rest) ≡ ok f
    → (n : ℕ) × (f ≡ sized n) × All (Reads n) (field ∷ rest)
of_first-eq-ok field rest f h = elim (Option-cases (parse_decimal field.value)) [
  | inl e ↦ absurd (ground (arith, e))
  | inr (n, e) ↦
      elim (Bool-cases (any (λ g. not (is_some_of (parse_decimal g.value) n)) (field ∷ rest))) [
        | inl differ ↦ absurd (ground (arith, e, differ))
        | inr same ↦ (n, ground (arith, e, same), (lengths_iff n (field ∷ rest)).0 same)
      ]
]

delimited_by-fault :
    (transfer lengths : List HeaderField) (fault : Fault)
    → delimited_by transfer lengths ≡ err fault
    → fault ≡ upstream
delimited_by-fault [] [] fault h = cc
delimited_by-fault [] (field ∷ rest) fault h = elim (Option-cases (parse_decimal field.value)) [
  | inl e ↦ ground (arith, e)
  | inr (n, e) ↦
      elim (Bool-cases (any (λ g. not (is_some_of (parse_decimal g.value) n)) (field ∷ rest))) [
        | inl differ ↦ ground (arith, e, differ)
        | inr same ↦ ground (arith, e, same)
      ]
]
delimited_by-fault (field ∷ []) [] fault h =
    elim (Bool-cases (eq_ignore_ascii_case field.value (codes "chunked"))) [
      | inl e ↦ ground (arith, e)
      | inr e ↦ ground (arith, e)
    ]
delimited_by-fault (field ∷ _ ∷ _) [] fault h = ground arith
delimited_by-fault (_ ∷ _) (_ ∷ _) fault h = ground arith

of_transfer-eq-ok :
    (field : HeaderField) (f : ResponseFraming)
    → of_transfer (field ∷ []) ≡ ok f
    → (f ≡ chunked) × (map to_ascii_lowercase field.value ≡ codes "chunked")
of_transfer-eq-ok field f h =
    elim (Bool-cases (eq_ignore_ascii_case field.value (codes "chunked"))) [
      | inl e ↦ (ground (arith, e), (ignore_case_iff field.value (codes "chunked")).0 e)
      | inr e ↦ absurd (ground (arith, e))
    ]

module _ (headers : HeaderBlock) where
  abbrev transfer_named : List HeaderField
  transfer_named = named (codes "transfer-encoding") headers

  abbrev lengths_named : List HeaderField
  lengths_named = named (codes "content-length") headers

  sized-Delimits :
      (n : ℕ) (field : HeaderField) (rest : List HeaderField)
      → transfer_named ≡ []
      → lengths_named ≡ field ∷ rest
      → All (Reads n) (field ∷ rest)
      → Delimits headers false (sized n)
  sized-Delimits n field rest t l reads =
      let name = codes "content-length" in
      let all =
        (All-of_name name (Reads n) headers.fields).0 (subst (All (Reads n)) (sym l) reads) in
      (
        refl,
        of_name-nil (codes "transfer-encoding") headers.fields t,
        λ lacks. (let e = Lacks-of_name name headers.fields lacks in cc),
        Reads-Spells name n headers.fields all,
        ((parse_decimal_iff field.value n).0 reads.0).1,
      )

  delimited_by-Delimits :
      (transfer lengths : List HeaderField) (f : ResponseFraming)
      → transfer_named ≡ transfer
      → lengths_named ≡ lengths
      → delimited_by transfer lengths ≡ ok f
      → Delimits headers false f
  delimited_by-Delimits [] [] f t l h =
      let e : close ≡ f = ground arith in
      subst (Delimits headers false) e (
        refl,
        of_name-nil (codes "transfer-encoding") headers.fields t,
        of_name-nil (codes "content-length") headers.fields l,
      )
  delimited_by-Delimits [] (field ∷ rest) f t l h =
      let (n, e, reads) = of_first-eq-ok field rest f h in
      subst (Delimits headers false) (sym e) (sized-Delimits n field rest t l reads)
  delimited_by-Delimits (field ∷ []) [] f t l h =
      let (e, spelled) = of_transfer-eq-ok field f h in
      subst (Delimits headers false) (sym e) (
        refl,
        of_name-nil (codes "content-length") headers.fields l,
        (field, of_name-one (codes "transfer-encoding") headers.fields field t, spelled),
      )
  delimited_by-Delimits (field ∷ _ ∷ _) [] f t l h = cc
  delimited_by-Delimits (_ ∷ _) (_ ∷ _) f t l h = cc

  delimited_by-sized :
      (n : ℕ) (lengths : List HeaderField)
      → lengths ≢ []
      → All (Reads n) lengths
      → delimited_by [] lengths ≡ ok (sized n)
  delimited_by-sized n [] some_field reads = absurd (some_field refl)
  delimited_by-sized n (field ∷ rest) some_field reads = of_first-ok field rest n reads

  delimited_by-chunked :
      (field : HeaderField)
      → HasOne (codes "transfer-encoding") field headers.fields
      → map to_ascii_lowercase field.value ≡ codes "chunked"
      → Lacks (codes "content-length") headers.fields
      → delimited_by transfer_named lengths_named ≡ ok chunked
  delimited_by-chunked field (before, after, split, e, p, q) spelled lacks =
      let one : transfer_named ≡ field ∷ [] =
        ap (of_name (codes "transfer-encoding")) split
        ∙ HasOne-of_name (codes "transfer-encoding") before after field e p q in
      let no_length : lengths_named ≡ [] =
        Lacks-of_name (codes "content-length") headers.fields lacks in
      let is_chunked = (ignore_case_iff field.value (codes "chunked")).1 spelled in
      rw (one, no_length, is_chunked) refl

  -- A framing that the head describes is given.
  Delimits-delimited_by :
      (f : ResponseFraming)
      → Delimits headers false f
      → delimited_by transfer_named lengths_named ≡ ok f
  Delimits-delimited_by no_body h = cc
  Delimits-delimited_by close (_, t, l) =
      rw
        (
          Lacks-of_name (codes "transfer-encoding") headers.fields t,
          Lacks-of_name (codes "content-length") headers.fields l,
        )
        refl
  Delimits-delimited_by chunked (_, l, (field, one, spelled)) =
      delimited_by-chunked field one spelled l
  Delimits-delimited_by (sized n) (_, t, l, spelled, fits) =
      let name = codes "content-length" in
      let reads =
        (All-of_name name (Reads n) headers.fields).1
          (Spells-Reads name n headers.fields fits spelled) in
      rw (Lacks-of_name (codes "transfer-encoding") headers.fields t)
        (delimited_by-sized n lengths_named (λ e. l (of_name-nil name headers.fields e)) reads)

  delimited_by-Frames :
      (r : Result Fault ResponseFraming)
      → delimited_by transfer_named lengths_named ≡ r
      → Frames headers false r
  delimited_by-Frames (ok f) h = delimited_by-Delimits transfer_named lengths_named f refl refl h
  delimited_by-Frames (err fault) h = (
    delimited_by-fault transfer_named lengths_named fault h,
    λ f described. (let given = Delimits-delimited_by f described in cc),
  )

  -- A response that can have no body is framed so. Any other is framed as its head says: chunked,
  -- where just one field is a transfer encoding, whose value is chunked in upper or lower case, and
  -- no field is a length; sized, where there is a length field, every length field spells the size
  -- in decimal digits, the size is a machine number and no field is a transfer encoding; or up to
  -- the close of the connection, where there is neither field. Where the head says none of these,
  -- the fault is that of upstream.
  pub response_framing-Frames :
      (bodiless : Bool) → Frames headers bodiless (response_framing headers bodiless)
  unfolding response_framing
  response_framing-Frames true = refl
  response_framing-Frames false =
      delimited_by-Frames (delimited_by transfer_named lengths_named) refl
