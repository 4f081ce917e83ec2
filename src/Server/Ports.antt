-- ===== src/Server/Ports.antt =====
-- What the port maps of internal/server/expose.go do to the ports of a service, and how the ports
-- of a port-forward are listed by internal/server/list.go.
use localizer.Base.{
  ℕ, ◌≡◌, ◌≢◌, refl, sym, ap, ap₂, ◌∙◌, true, List, [], ◌∷◌, ◌++◌, map, Bytes, codes, str_eq,
  str_eq_iff, join, split-join, Lacks, ◌==◌, if◌then◌else◌, ok, arith, Bool-cases, inl, inr, is_ok,
  is_err, is_panic, is_blocked, result_cases,
}
use localizer.Kube.{Intstr, ResolvedServicePort, int_value}
use localizer.Proxier.Reconcile.{port_text}
use localizer.Server.{ParseUint, set_mapped, parse_override, map_ports, list_port}

-- The local port that a list of overrides gives to a target: the last one that names it wins.
abbrev pub chosen : ℕ → List (ℕ × ℕ) → ℕ → ℕ
chosen target [] port = port
chosen target ((local, rem) ∷ more) port =
    chosen target more (if target == rem then local else port)

-- Every entry of the port map is read as a pair.
abbrev pub Reads : Intstr → ParseUint → List Bytes → List (ℕ × ℕ) → Type 0
Reads z parse_uint [] [] = Unit
Reads z parse_uint (o ∷ os) (pair ∷ pairs) =
    (parse_override z parse_uint o ≡ ok pair) × Reads z parse_uint os pairs
Reads z parse_uint _ _ = ⊥

module _ (z : Intstr) (parse_uint : ParseUint) where
  abbrev pub mapped : List (ℕ × ℕ) → ResolvedServicePort → ResolvedServicePort
  mapped pairs sp = record sp {
    mapped_port = chosen (int_value z sp.service_port.target_port) pairs sp.mapped_port;
  }

  at_port :
      (local rem : ℕ) (pairs : List (ℕ × ℕ)) (sp : ResolvedServicePort)
      → mapped pairs (set_mapped z parse_uint local rem sp) ≡ mapped ((local, rem) ∷ pairs) sp
  unfolding set_mapped
  at_port local rem pairs sp = ground arith

  one_override :
      (local rem : ℕ) (pairs : List (ℕ × ℕ)) (ports : List ResolvedServicePort)
      → map (mapped pairs) (map (set_mapped z parse_uint local rem) ports)
        ≡ map (mapped ((local, rem) ∷ pairs)) ports
  one_override local rem pairs [] = refl
  one_override local rem pairs (sp ∷ ports) =
      ap₂ ◌∷◌ (at_port local rem pairs sp) (one_override local rem pairs ports)

  unmapped : (ports : List ResolvedServicePort) → map (mapped []) ports ≡ ports
  unmapped [] = refl
  unmapped (sp ∷ ports) = ap (◌∷◌ sp) (unmapped ports)

  map_ports_step :
      (o : Bytes) (os : List Bytes) (ports : List ResolvedServicePort) (local rem : ℕ)
      → parse_override z parse_uint o ≡ ok (local, rem)
      → map_ports z parse_uint (o ∷ os) ports
        ≡ map_ports z parse_uint os (map (set_mapped z parse_uint local rem) ports)
  unfolding map_ports
  map_ports_step o os ports local rem e = rw (e, map_ports) refl

  -- When the port map is accepted, every entry of it was read, and every port of the service has the
  -- local port of the last entry that names its target, or the one that it had; nothing else of a
  -- port is changed.
  pub map_ports-mapped :
      (os : List Bytes) (ports rs : List ResolvedServicePort)
      → map_ports z parse_uint os ports ≡ (rs, ok tt)
      → (pairs : List (ℕ × ℕ)) × Reads z parse_uint os pairs × (rs ≡ map (mapped pairs) ports)
  unfolding map_ports
  map_ports-mapped [] ports rs h = ([], tt, sym (ap (λ t. t.0) h) ∙ sym (unmapped ports))
  map_ports-mapped (o ∷ os) ports rs h = elim (result_cases (parse_override z parse_uint o)) [
    | is_ok (local, rem) e ↦
        let (pairs, read, same) =
          map_ports-mapped os (map (set_mapped z parse_uint local rem) ports) rs
            (sym (map_ports_step o os ports local rem e) ∙ h) in
        ((local, rem) ∷ pairs, (e, read), same ∙ one_override local rem pairs ports)
    | is_err m e ↦ absurd (ground arith)
    | is_panic e ↦ absurd (ground arith)
    | is_blocked e ↦ absurd (ground arith)
  ]

-- Documented behaviour of `%d`: the text of a number has no colon, and different numbers have
-- different texts.
pub record IsDecimal (z : Intstr) : Type 0 where
  pub plain : (n : ℕ) → Lacks b':' (z.itoa n)
  pub distinct : (m n : ℕ) → z.itoa m ≡ z.itoa n → m ≡ n

list_port_pair :
    (a b : Bytes)
    → Lacks b':' a
    → Lacks b':' b
    → list_port (a ++ (b':' ∷ b))
      ≡ (if str_eq a b then a ++ codes "/tcp" else a ++ (codes "->" ++ (b ++ codes "/tcp")))
unfolding list_port join
list_port_pair a b ha hb =
    rw (split-join b':' (a ∷ b ∷ []) (λ e. cc) (ha, (hb, tt)), list_port) refl

same_text : (z : Intstr) (m n : ℕ) → IsDecimal z → str_eq (z.itoa m) (z.itoa n) ≡ (m == n)
same_text z m n law = elim (Bool-cases (str_eq (z.itoa m) (z.itoa n))) [
  | inl hit ↦
      let same : m ≡ n = law.distinct m n ((str_eq_iff (z.itoa m) (z.itoa n)).0 hit) in
      hit ∙ ground (arith, same)
  | inr miss ↦
      let apart : m ≢ n = λ e.
        let hit : str_eq (z.itoa m) (z.itoa n) ≡ true =
          (str_eq_iff (z.itoa m) (z.itoa n)).1 (ap z.itoa e) in
        cc in
      miss ∙ ground (arith, apart)
]

-- A port that the proxier forwards is listed with both numbers, or with one where they are the
-- same: the text that the proxier makes of it is read back by the server, never left empty. The
-- numbers are printed in decimal.
pub list_port-port_text :
    (z : Intstr) (r : ResolvedServicePort)
    → IsDecimal z
    → let source = r.service_port.port in
      let dest = int_value z r.service_port.target_port in
      list_port (port_text z r) ≡ (
        if source == dest
        then z.itoa source ++ codes "/tcp"
        else z.itoa source ++ (codes "->" ++ (z.itoa dest ++ codes "/tcp")))
unfolding port_text
list_port-port_text z r law =
    let source = r.service_port.port in
    let dest = int_value z r.service_port.target_port in
    list_port_pair (z.itoa source) (z.itoa dest) (law.plain source) (law.plain dest)
    ∙ ap
        (λ same.
          if same
          then z.itoa source ++ codes "/tcp"
          else z.itoa source ++ (codes "->" ++ (z.itoa dest ++ codes "/tcp")))
        (same_text z source dest law)
