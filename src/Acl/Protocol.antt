-- ===== src/Acl/Protocol.antt =====
-- What the protocol of a rule means, apart from how it is compiled.
use meshp.Prelude.{
  ◌≡◌, ◌≢◌, ◌⊎◌, ◌↔◌, inl, inr, refl, sym, ◌∙◌, Bool-cases, true, false, ◌||◌, String,
}
use meshp.Prelude.Equality.{equal, equal_iff, string_eq}
use meshp.Acl.Document.{Reading, Rule, protocol_of, canonical_protocol}

module _ (t : Reading) where
  -- The protocol of a rule, without case or space around it; `any` stands for all but these.
  abbrev pub IsProtocol : Rule → String → Type 0
  IsProtocol r proto =
      let p = t.to_lower (t.trim_space r.protocol) in
      ((p ≡ proto) × ((p ≡ "tcp") ⊎ (p ≡ "udp") ⊎ (p ≡ "icmp")))
      ⊎ ((proto ≡ "any") × (p ≢ "tcp") × (p ≢ "udp") × (p ≢ "icmp"))

  -- The text that the protocol of a rule is read from.
  abbrev written : Rule → String
  written r = t.to_lower (t.trim_space r.protocol)

  known :
      (r : Rule) (x : String)
      → (x ≡ "tcp") ⊎ (x ≡ "udp") ⊎ (x ≡ "icmp")
      → written r ≡ x
      → canonical_protocol t r ≡ x
  unfolding canonical_protocol protocol_of
  known r x (inl tcp) is = rw (is, tcp)
  known r x (inr (inl udp)) is = rw (is, udp)
  known r x (inr (inr icmp)) is = rw (is, icmp)

  unknown :
      (r : Rule)
      → equal (written r) "tcp" ≡ false
      → equal (written r) "udp" ≡ false
      → equal (written r) "icmp" ≡ false
      → canonical_protocol t r ≡ "any"
  unfolding canonical_protocol protocol_of
  unknown r a b c = elim (Bool-cases (equal (written r) "" || equal (written r) "any")) [
    | inl e ↦ rw e
    | inr e ↦ rw (e, a, b, c)
  ]

  known-IsProtocol :
      (r : Rule) (proto x : String)
      → (x ≡ "tcp") ⊎ (x ≡ "udp") ⊎ (x ≡ "icmp")
      → written r ≡ x
      → (equal (canonical_protocol t r) proto ≡ true) ↔ IsProtocol r proto
  known-IsProtocol r proto x one is =
      let value = known r x one is in
      (
        λ h. inl (is ∙ (sym value ∙ (equal_iff (canonical_protocol t r) proto).0 h), rw is one),
        λ h. elim h [
          | inl (e, some_one) ↦ (equal_iff (canonical_protocol t r) proto).1 (value ∙ (sym is ∙ e))
          | inr (e, a, b, c) ↦ elim one [
            | inl tcp ↦ absurd (a (is ∙ tcp))
            | inr (inl udp) ↦ absurd (b (is ∙ udp))
            | inr (inr icmp) ↦ absurd (c (is ∙ icmp))
          ]
        ],
      )

  unknown-IsProtocol :
      (r : Rule) (proto : String)
      → written r ≢ "tcp"
      → written r ≢ "udp"
      → written r ≢ "icmp"
      → canonical_protocol t r ≡ "any"
      → (equal (canonical_protocol t r) proto ≡ true) ↔ IsProtocol r proto
  unknown-IsProtocol r proto a b c value = (
    λ h. inr (sym ((equal_iff (canonical_protocol t r) proto).0 h) ∙ value, a, b, c),
    λ h. elim h [
      | inl (e, inl tcp) ↦ absurd (a tcp)
      | inl (e, inr (inl udp)) ↦ absurd (b udp)
      | inl (e, inr (inr icmp)) ↦ absurd (c icmp)
      | inr (e, x, y, z) ↦ (equal_iff (canonical_protocol t r) proto).1 (value ∙ sym e)
    ],
  )

  pub canonical_protocol-IsProtocol :
      (r : Rule) (proto : String)
      → (equal (canonical_protocol t r) proto ≡ true) ↔ IsProtocol r proto
  canonical_protocol-IsProtocol r proto =
      let same = λ (x : String). equal_iff (written r) x in
      elim (Bool-cases (equal (written r) "tcp")) [
        | inl e ↦ known-IsProtocol r proto "tcp" (inl refl) ((same "tcp").0 e)
        | inr a ↦ elim (Bool-cases (equal (written r) "udp")) [
          | inl e ↦ known-IsProtocol r proto "udp" (inr (inl refl)) ((same "udp").0 e)
          | inr b ↦ elim (Bool-cases (equal (written r) "icmp")) [
            | inl e ↦ known-IsProtocol r proto "icmp" (inr (inr refl)) ((same "icmp").0 e)
            | inr c ↦
                unknown-IsProtocol r proto (λ e. cc ((same "tcp").1 e, a))
                  (λ e. cc ((same "udp").1 e, b)) (λ e. cc ((same "icmp").1 e, c)) (unknown r a b c)
          ]
        ]
      ]
