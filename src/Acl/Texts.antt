-- ===== src/Acl/Texts.antt =====
-- What the ports of a rule are in a filter, apart from how they are compiled.
use meshp.Prelude.{
  ℕ, ◌%◌, ◌^◌, ◌≡◌, ◌≢◌, ◌⊎◌, ◌↔◌, inl, inr, refl, sym, ap, ◌∙◌, arith, Bool, Bool-cases, true,
  false, ◌||◌, Option, Option-cases, none, some, List, [], ◌∷◌, String, ltb,
}
use meshp.Prelude.Int.{ℤ, pos, negsuc, int_lt}
use meshp.Prelude.Equality.{equal, equal_iff, string_eq}
use meshp.Prelude.Keyed.{elem}
use meshp.Prelude.Members.{any_is}
use meshp.Prelude.Order.{insert_by, sort_by}
use meshp.Prelude.Result.{ok, bind_ok, ok_same, ◌>>=◌}
use meshp.Acl.Document.{
  Reading, Rule, PortRange, range_before, no_items, uint16, upper_port, ordered_range, parse_port,
  parse_range, parse_ranges, port_ranges,
}
use meshp.Acl.Compile.{range_text, render_ports}
use meshp.Acl.Meaning.{Some}

any_is-insert_by :
    (test : PortRange → Bool) (r : PortRange) (l : List PortRange)
    → any_is test (insert_by range_before r l) ≡ (test r || any_is test l)
unfolding insert_by any_is
any_is-insert_by test r [] = refl
any_is-insert_by test r (q ∷ l) = ground (arith, any_is-insert_by test r l)

any_is-sort_by :
    (test : PortRange → Bool) (l : List PortRange)
    → any_is test (sort_by range_before l) ≡ any_is test l
unfolding sort_by any_is
any_is-sort_by test [] = refl
any_is-sort_by test (r ∷ l) =
    any_is-insert_by test r (sort_by range_before l) ∙ ap (λ b. test r || b) (any_is-sort_by test l)

module _ (t : Reading) where
  -- A text is read as a number, with space around it.
  abbrev pub IsNumber : String → ℕ → Type 0
  IsNumber s n = t.atoi (t.trim_space s) ≡ some (pos n)

  -- The end of a range, which is its start where there is no other.
  abbrev pub IsEnd : Option String → ℕ → ℕ → Type 0
  IsEnd none lo hi = hi ≡ lo
  IsEnd (some s) lo hi = IsNumber s hi

  -- The text of a range: one number, or two with a dash.
  abbrev pub IsText : ℕ → ℕ → String → Type 0
  IsText lo hi w =
      ((lo ≡ hi) × (t.itoa lo ≡ w)) ⊎ ((lo ≢ hi) × (t.join_dash (t.itoa lo) (t.itoa hi) ≡ w))

  -- An entry of a rule that a filter has as a text: a port, or a first and a last one with a dash.
  abbrev pub Writes : String → String → Type 0
  Writes w spec =
      (lo : ℕ) × (hi : ℕ) × IsNumber (t.cut_dash (t.trim_space spec)).0 lo
      × IsEnd (t.cut_dash (t.trim_space spec)).1 lo hi
      × IsText lo hi w

  checked_number :
      (v : ℤ) (m : ℕ)
      → (int_lt v (pos 1) || int_lt (pos 65535) v) ≡ false
      → uint16 v ≡ m
      → v ≡ pos m
  checked_number (pos n) m h e =
      let small : n % 2 ^ 16 ≡ n = ground (arith, h) in ap pos (sym small ∙ e)
  checked_number (negsuc n) m h e = absurd (cc h)

  parse_port-IsNumber : (s : String) (n : ℕ) → parse_port t s ≡ ok n → IsNumber s n
  unfolding parse_port
  parse_port-IsNumber s n h = elim (Option-cases (t.atoi (t.trim_space s))) [
    | inl gone ↦ absurd (cc (rw gone at h))
    | inr (v, read) ↦ elim (Bool-cases (int_lt v (pos 1) || int_lt (pos 65535) v)) [
      | inl outside ↦ absurd (cc (rw (read, outside) at h))
      | inr inside ↦
          read
          ∙ ap (λ x. some x)
              (checked_number v n inside (ok_same (uint16 v) n (rw (read, inside) at h)))
    ]
  ]

  upper_port-IsEnd : (o : Option String) (lo hi : ℕ) → upper_port t o lo ≡ ok hi → IsEnd o lo hi
  upper_port-IsEnd none lo hi h = sym (ok_same lo hi h)
  upper_port-IsEnd (some s) lo hi h = parse_port-IsNumber s hi h

  ordered_same :
      (lo hi : ℕ) (r : PortRange) → ordered_range lo hi ≡ ok r → (r.from ≡ lo) × (r.to ≡ hi)
  ordered_same lo hi r h = elim (Bool-cases (ltb hi lo)) [
    | inl backwards ↦ absurd (cc (rw backwards at h))
    | inr ordered ↦
        let made = ok_same (record { from = lo; to = hi }) r (rw ordered at h) in
        (ap (λ (q : PortRange). q.from) (sym made), ap (λ (q : PortRange). q.to) (sym made))
  ]

  -- A range that is read has the numbers of its text.
  read_as :
      (spec : String) (r : PortRange)
      → parse_range t spec ≡ ok r
      → IsNumber (t.cut_dash (t.trim_space spec)).0 r.from
        × IsEnd (t.cut_dash (t.trim_space spec)).1 r.from r.to
  unfolding parse_range
  read_as spec r h =
      let (from, to) = t.cut_dash (t.trim_space spec) in
      let (lo, low, h1) =
        bind_ok (parse_port t from) (λ n. upper_port t to n >>= λ hi. ordered_range n hi) r h in
      let (hi, high, h2) = bind_ok (upper_port t to lo) (λ n. ordered_range lo n) r h1 in
      let (first, last) = ordered_same lo hi r h2 in
      (
        rw first (parse_port-IsNumber from lo low),
        rw (first, last) (upper_port-IsEnd to lo hi high),
      )

  number_same : (s : String) (m n : ℕ) → IsNumber s m → IsNumber s n → m ≡ n
  number_same s m n a b = cc (a, b)

  end_same : (o : Option String) (lo hi hi' : ℕ) → IsEnd o lo hi → IsEnd o lo hi' → hi ≡ hi'
  end_same none lo hi hi' a b = a ∙ sym b
  end_same (some s) lo hi hi' a b = number_same s hi hi' a b

  range_text-IsText :
      (r : PortRange) (w : String) → (equal (range_text t r) w ≡ true) ↔ IsText r.from r.to w
  unfolding range_text
  range_text-IsText r w =
      ground (
        arith,
        equal_iff (t.itoa r.from) w,
        equal_iff (t.join_dash (t.itoa r.from) (t.itoa r.to)) w,
      )

  written_iff :
      (spec w : String) (r : PortRange)
      → parse_range t spec ≡ ok r
      → (equal (range_text t r) w ≡ true) ↔ Writes w spec
  written_iff spec w r h =
      let (first, last) = read_as spec r h in
      (
        λ e. (r.from, r.to, first, last, (range_text-IsText r w).0 e),
        λ made.
            let (lo, hi, low, high, text) = made in
            let one = number_same _ lo r.from low first in
            let two = end_same _ r.from hi r.to (rw (sym one) high) last in
            (range_text-IsText r w).1 (rw (sym one, sym two) text),
      )

  elem-render_ports :
      (w : String) (l : List PortRange)
      → elem w (render_ports t l) ≡ any_is (λ r. equal (range_text t r) w) l
  unfolding elem render_ports any_is
  elem-render_ports w [] = refl
  elem-render_ports w (r ∷ l) = ground (arith, elem-render_ports w l)

  no_items-insert_by :
      (r : PortRange) (l : List PortRange)
      → no_items (render_ports t (insert_by range_before r l)) ≡ false
  unfolding render_ports insert_by
  no_items-insert_by r [] = refl
  no_items-insert_by r (q ∷ l) = ground arith

  ranges_iff :
      (w : String) (specs : List String) (rs : List PortRange)
      → parse_ranges t specs ≡ ok rs
      → (any_is (λ r. equal (range_text t r) w) rs ≡ true) ↔ Some (Writes w) specs
  unfolding parse_ranges any_is
  ranges_iff w [] rs h =
      let none_read : [] ≡ rs = ok_same [] rs h in
      (λ e. absurd (cc (rw (sym none_read) at e)), λ e. absurd e)
  ranges_iff w (spec ∷ specs) rs h =
      let (r, first, h1) = bind_ok (parse_range t spec) _ rs h in
      let (rest, others, h2) = bind_ok (parse_ranges t specs) _ rs h1 in
      let made : (r ∷ rest) ≡ rs = ok_same (r ∷ rest) rs h2 in
      rw (sym made) (ground (arith, written_iff spec w r first, ranges_iff w specs rest others))

  -- A filter has a port text, or has no ports at all.
  abbrev pub has_ports : Option String → List String → Bool
  has_ports none ports = no_items ports
  has_ports (some w) ports = elem w ports

  -- A rule has an entry for it, or no entry.
  abbrev pub HasPorts : Option String → Rule → Type 0
  HasPorts none r = r.ports ≡ []
  HasPorts (some w) r = Some (Writes w) r.ports

  none_iff :
      (specs : List String) (rs : List PortRange)
      → parse_ranges t specs ≡ ok rs
      → (no_items (render_ports t (sort_by range_before rs)) ≡ true) ↔ (specs ≡ [])
  unfolding parse_ranges sort_by render_ports
  none_iff [] rs h =
      let none_read : [] ≡ rs = ok_same [] rs h in (λ e. refl, λ e. rw (sym none_read) refl)
  none_iff (spec ∷ specs) rs h =
      let (r, first, h1) = bind_ok (parse_range t spec) _ rs h in
      let (rest, others, h2) = bind_ok (parse_ranges t specs) _ rs h1 in
      let made : (r ∷ rest) ≡ rs = ok_same (r ∷ rest) rs h2 in
      let some_there = no_items-insert_by r (sort_by range_before rest) in
      (λ e. absurd (cc (rw (sym made) at e, some_there)), λ e. absurd (cc e))

  -- What a compiled rule has of ports is what the rule of the policy has.
  pub ports_iff :
      (o : Option String) (r : Rule) (ranges : List PortRange)
      → port_ranges t r ≡ ok ranges
      → (has_ports o (render_ports t ranges) ≡ true) ↔ HasPorts o r
  unfolding port_ranges
  ports_iff none r ranges h =
      let (read, parsed, sorted) = bind_ok (parse_ranges t r.ports) _ ranges h in
      rw (sym (ok_same (sort_by range_before read) ranges sorted)) (none_iff r.ports read parsed)
  ports_iff (some w) r ranges h =
      let (read, parsed, sorted) = bind_ok (parse_ranges t r.ports) _ ranges h in
      let same =
        ap (elem w) (ap (render_ports t) (sym (ok_same (sort_by range_before read) ranges sorted)))
        ∙ (elem-render_ports w (sort_by range_before read)
            ∙ any_is-sort_by (λ q. equal (range_text t q) w) read) in
      rw same (ranges_iff w r.ports read parsed)
