-- ===== src/Config/Load/Expanded.antt =====
-- What `expandPorts` makes of the backends with ports, and of the others.
use llm_proxy.Base.{
  ℕ, suc, ◌+◌, ◌≡◌, refl, ap, Bool, true, false, List, [], ◌∷◌, ◌++◌, String, ok, err, ◌>>=◌,
  >>=-eq-ok, ok_inj, length, map, arith, Bool-cases, inl, inr, ◌⊎◌, length-append, All, In, here,
  there, ◌&&◌,
}
use llm_proxy.Base.Int.{ℤ}
use llm_proxy.Config.Types.{Backend}
use llm_proxy.Config.Load.Ports.{
  PortError, no_port_in_id, no_port_in_url, has_port, for_port, expand_backend, expand_ports,
}

-- How many backends a list of backends stands for.
abbrev copy_count : List ℤ → ℕ
copy_count [] = 1
copy_count (p ∷ ports) = length (p ∷ ports)

unfoldable pub expanded_count : List Backend → ℕ
expanded_count [] = 0
expanded_count (b ∷ bs) = copy_count b.ports + expanded_count bs

module _ (itoa : ℤ → String) where
  abbrev PortsGone : List Backend → Type 0
  PortsGone bs = All (λ b. b.ports ≡ []) bs

  map-PortsGone : (b : Backend) (ports : List ℤ) → PortsGone (map (for_port itoa b) ports)
  unfolding for_port
  map-PortsGone b [] = tt
  map-PortsGone b (p ∷ ports) = (refl, map-PortsGone b ports)

  expand_backend-PortsGone :
      (b : Backend) (ports : List ℤ) {out : List Backend}
      → b.ports ≡ ports
      → expand_backend itoa b ports ≡ ok out
      → PortsGone out
  unfolding expand_backend
  expand_backend-PortsGone b [] q h = rw (← ok_inj h) (q, tt)
  expand_backend-PortsGone b (p ∷ ports) q h = elim (Bool-cases (has_port b.id)) [
    | inr e ↦ let h' = rw e at h in cc
    | inl e ↦ elim (Bool-cases (has_port b.base_url)) [
      | inr f ↦ let h' = rw (e, f) at h in cc
      | inl f ↦ rw (← ok_inj (rw (e, f) at h)) (map-PortsGone b (p ∷ ports))
    ]
  ]

  All-append : (xs ys : List Backend) → PortsGone xs → PortsGone ys → PortsGone (xs ++ ys)
  All-append [] ys h k = k
  All-append (x ∷ xs) ys h k = (h.0, All-append xs ys h.1 k)

  pub expand_ports-PortsGone :
      (bs : List Backend) {out : List Backend} → expand_ports itoa bs ≡ ok out → PortsGone out
  unfolding expand_ports
  expand_ports-PortsGone [] h = rw (← ok_inj h) tt
  expand_ports-PortsGone (b ∷ bs) h =
      let (copies, e, h') =
        >>=-eq-ok (expand_backend itoa b b.ports)
          (λ copies. expand_ports itoa bs >>= λ rest. ok (copies ++ rest)) h in
      let (rest, f, q) = >>=-eq-ok (expand_ports itoa bs) (λ rest. ok (copies ++ rest)) h' in
      rw (← ok_inj q) (
        All-append copies rest (expand_backend-PortsGone b b.ports refl e)
          (expand_ports-PortsGone bs f))

  expand_backend-unported :
      (b : Backend) (ports : List ℤ) → ports ≡ [] → expand_backend itoa b ports ≡ ok (b ∷ [])
  unfolding expand_backend
  expand_backend-unported b [] h = refl
  expand_backend-unported b (p ∷ ports) h = cc

  expand_ports-settled : (bs : List Backend) → PortsGone bs → expand_ports itoa bs ≡ ok bs
  unfolding expand_ports
  expand_ports-settled [] h = refl
  expand_ports-settled (b ∷ bs) h =
      rw (expand_backend-unported b b.ports h.0) (rw (expand_ports-settled bs h.1) refl)

  length-map : (b : Backend) (ports : List ℤ) → length (map (for_port itoa b) ports) ≡ length ports
  length-map b [] = refl
  length-map b (p ∷ ports) = ap suc (length-map b ports)

  length-expand_backend :
      (b : Backend) (ports : List ℤ) {out : List Backend}
      → expand_backend itoa b ports ≡ ok out
      → length out ≡ copy_count ports
  unfolding expand_backend
  length-expand_backend b [] h = rw (← ok_inj h) refl
  length-expand_backend b (p ∷ ports) h = elim (Bool-cases (has_port b.id)) [
    | inr e ↦ let h' = rw e at h in cc
    | inl e ↦ elim (Bool-cases (has_port b.base_url)) [
      | inr f ↦ let h' = rw (e, f) at h in cc
      | inl f ↦ rw (← ok_inj (rw (e, f) at h)) (length-map b (p ∷ ports))
    ]
  ]

  length-expand_ports :
      (bs : List Backend) {out : List Backend}
      → expand_ports itoa bs ≡ ok out
      → length out ≡ expanded_count bs
  unfolding expand_ports expanded_count
  length-expand_ports [] h = rw (← ok_inj h) refl
  length-expand_ports (b ∷ bs) h =
      let (copies, e, h') =
        >>=-eq-ok (expand_backend itoa b b.ports)
          (λ copies. expand_ports itoa bs >>= λ rest. ok (copies ++ rest)) h in
      let (rest, f, q) = >>=-eq-ok (expand_ports itoa bs) (λ rest. ok (copies ++ rest)) h' in
      rw (← ok_inj q) (
        omega (
          arith,
          length-append copies rest,
          length-expand_backend b b.ports e,
          length-expand_ports bs f,
        ))

  -- Where the expansion of port ranges succeeds, a backend with ports has become one backend for
  -- each port, every other one is still one, none has ports any more, and a second expansion
  -- changes nothing.
  pub expand_ports-lem :
      (bs out : List Backend)
      → expand_ports itoa bs ≡ ok out
      → (length out ≡ expanded_count bs)
        × All (λ b. b.ports ≡ []) out
        × (expand_ports itoa out ≡ ok out)
  expand_ports-lem bs out h = (
    length-expand_ports bs h,
    expand_ports-PortsGone bs h,
    expand_ports-settled out (expand_ports-PortsGone bs h),
  )

-- A backend without ports, or one whose id and URL have a place for the port.
abbrev pub is_expandable : Backend → Bool
is_expandable b = elim b.ports [ [] ↦ true | _ ∷ _ ↦ has_port b.id && has_port b.base_url ]

abbrev copies_of : (Backend → ℤ → Backend) → Backend → List ℤ → List Backend
copies_of copy b [] = b ∷ []
copies_of copy b (port ∷ ports) = map (copy b) (port ∷ ports)

-- The backends with their copies in place, in order.
abbrev pub all_copies : (Backend → ℤ → Backend) → List Backend → List Backend
all_copies copy [] = []
all_copies copy (b ∷ bs) = copies_of copy b b.ports ++ all_copies copy bs

module _ (itoa : ℤ → String) where
  -- The first backend that is not expandable stops the expansion.
  abbrev pub IsRefused : List Backend → Type 0
  IsRefused bs =
      (b : Backend) × In b bs
      × (is_expandable b ≡ false)
      × ((e : PortError) × (expand_ports itoa bs ≡ err e))

  expand_backend-cases :
      (b : Backend) (ports : List ℤ)
      → b.ports ≡ ports
      → ((is_expandable b ≡ true)
          × (expand_backend itoa b ports ≡ ok (copies_of (for_port itoa) b ports)))
        ⊎ ((is_expandable b ≡ false) × ((e : PortError) × (expand_backend itoa b ports ≡ err e)))
  unfolding expand_backend
  expand_backend-cases b [] q = inl (rw q refl, refl)
  expand_backend-cases b (p ∷ ports) q = elim (Bool-cases (has_port b.id)) [
    | inr e ↦ inr (rw (q, e) refl, (no_port_in_id b.id, rw (e, expand_backend) refl))
    | inl e ↦ elim (Bool-cases (has_port b.base_url)) [
      | inr f ↦ inr (rw (q, e, f) refl, (no_port_in_url b.id, rw (e, f, expand_backend) refl))
      | inl f ↦ inl (rw (q, e, f) refl, rw (e, f, expand_backend) refl)
    ]
  ]

  expand_ports-cases :
      (bs : List Backend)
      → (All (λ b. is_expandable b ≡ true) bs
          × (expand_ports itoa bs ≡ ok (all_copies (for_port itoa) bs)))
        ⊎ IsRefused bs
  unfolding expand_ports
  expand_ports-cases [] = inl (tt, refl)
  expand_ports-cases (b ∷ bs) = elim (expand_backend-cases b b.ports refl) [
    | inr (n, (e, q)) ↦ inr (b, here refl, n, (e, rw (q, expand_ports) refl))
    | inl (x, q) ↦ elim (expand_ports-cases bs) [
      | inr (c, i, n, (e, r)) ↦ inr (c, there i, n, (e, rw (q, r, expand_ports) refl))
      | inl (xs, r) ↦ inl ((x, xs), rw (q, r, expand_ports) refl)
    ]
  ]

  -- The expansion either gives every backend with ports one copy for each port, in place, with
  -- none that has ports left, so that a second expansion changes nothing; or it fails because of a
  -- backend with ports whose id or URL has no place for the port, and it does so whenever there is
  -- one.
  pub expand_ports-expanded :
      (bs : List Backend)
      → (All (λ b. is_expandable b ≡ true) bs
          × (expand_ports itoa bs ≡ ok (all_copies (for_port itoa) bs))
          × All (λ b. b.ports ≡ []) (all_copies (for_port itoa) bs)
          × (expand_ports itoa (all_copies (for_port itoa) bs)
              ≡ ok (all_copies (for_port itoa) bs)))
        ⊎ IsRefused bs
  expand_ports-expanded bs = elim (expand_ports-cases bs) [
    | inr r ↦ inr r
    | inl (x, q) ↦
        let out = all_copies (for_port itoa) bs in
        let (_, gone, again) = expand_ports-lem itoa bs out q in inl (x, q, gone, again)
  ]
