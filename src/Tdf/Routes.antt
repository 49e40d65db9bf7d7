-- ===== src/Tdf/Routes.antt =====
-- What td_noc_orchestrate of src/tdf/tdf_noc.c promises, as a relation between the arcs before and
-- after, and the fields of the addresses of td_noc_addr.
use mathlib.Core.Path.{subst}
use native.Mathlib.Decide.{dec_lt, dec_le}
use booth.Base.{
  ℕ, ◌+◌, ◌*◌, ◌/◌, ◌%◌, ◌^◌, ◌≤◌, ◌<◌, ◌≡◌, ◌≢◌, ◌↔◌, ◌⊎◌, inl, inr, refl, sym, ap, ◌∙◌, arith,
  bit_or, bit_and_mask, bit_or_add, bit_or_comm, ◌==◌, Option-cases, Bool-cases, none, some, List,
  [], ◌∷◌, get_elem?, ℤ, bc_ok, bc_err_tdf,
}
use booth.Tdf.Defs.{TdChan, TdArc, TdMod, td_ar_rd, td_ar_wr, td_noc_max_xfer}
use booth.Tdf.Place.{td_tile_bytes}
use booth.Tdf.Orchestrate.{td_noc_addr, orchestrate_from, td_noc_orchestrate}

-- The arc moves a tile of the channel `c`, in one request.
pub record Transfer (chans : List TdChan) (a : TdArc) (c : TdChan) : Type 0 where
  pub found : get_elem? chans a.chan ≡ some c
  pub positive : 0 < td_tile_bytes c.tag
  pub bounded : td_tile_bytes c.tag ≤ td_noc_max_xfer

-- An arc that moves data gets its network by its direction and its size; another stays.
pub data Routes (chans : List TdChan) : TdArc → TdArc → Type 0 where
  sync : (a : TdArc) → a.kind ≢ td_ar_rd → a.kind ≢ td_ar_wr → Routes chans a a
  read :
      (a : TdArc) (c : TdChan)
      → a.kind ≡ td_ar_rd
      → Transfer chans a c
      → Routes chans a (record a { noc_id = 0; length = td_tile_bytes c.tag })
  write :
      (a : TdArc) (c : TdChan)
      → a.kind ≡ td_ar_wr
      → Transfer chans a c
      → Routes chans a (record a { noc_id = 1; length = td_tile_bytes c.tag })

pub data AllRoutes (chans : List TdChan) : List TdArc → List TdArc → Type 0 where
  end : AllRoutes chans [] []
  more :
      (a b : TdArc) (as' bs : List TdArc)
      → Routes chans a b
      → AllRoutes chans as' bs
      → AllRoutes chans (a ∷ as') (b ∷ bs)

err_ne_ok : bc_err_tdf ≢ bc_ok
err_ne_ok e = cc e

-- One round of the loop that goes on.
orchestrate_step :
    (chans : List TdChan) (a b : TdArc) (as' : List TdArc)
    → Routes chans a b
    → orchestrate_from chans (a ∷ as')
      ≡ (b ∷ (orchestrate_from chans as').0, (orchestrate_from chans as').1)
unfolding orchestrate_from
orchestrate_step chans a b as' (sync a' h k) = ground arith
orchestrate_step chans a b as' (read a' c k t) =
    let (low, high) : (0 < td_tile_bytes c.tag) × (td_tile_bytes c.tag ≤ td_noc_max_xfer) =
      (t.positive, t.bounded) in
    rw (t.found, k) (ground arith)
orchestrate_step chans a b as' (write a' c k t) =
    let (low, high) : (0 < td_tile_bytes c.tag) × (td_tile_bytes c.tag ≤ td_noc_max_xfer) =
      (t.positive, t.bounded) in
    rw (t.found, k) (ground arith)

Stops : List TdChan → TdArc → Type 0
Stops chans a = (as' : List TdArc) → (orchestrate_from chans (a ∷ as')).1 ≡ bc_err_tdf

module _ (chans : List TdChan) (a : TdArc) (moves : (a.kind ≡ td_ar_rd) ⊎ (a.kind ≡ td_ar_wr)) where
  missing : get_elem? chans a.chan ≡ none → Stops chans a
  unfolding orchestrate_from Stops
  missing e as' = elim moves [ inl k ↦ rw (e, k) refl | inr k ↦ rw (e, k) refl ]

  oversize :
      (c : TdChan)
      → get_elem? chans a.chan ≡ some c
      → ((td_tile_bytes c.tag ≡ 0) ⊎ (td_noc_max_xfer < td_tile_bytes c.tag))
      → Stops chans a
  unfolding orchestrate_from Stops
  oversize c e size as' = elim moves [
    | inl k ↦ rw (e, k) (elim size [ inl z ↦ ground arith | inr l ↦ ground arith ])
    | inr k ↦ rw (e, k) (elim size [ inl z ↦ ground arith | inr l ↦ ground arith ])
  ]

  reading : (c : TdChan) → a.kind ≡ td_ar_rd → Transfer chans a c → (b : TdArc) × Routes chans a b
  reading c k t = (record a { noc_id = 0; length = td_tile_bytes c.tag }, read a c k t)

  writing : (c : TdChan) → a.kind ≡ td_ar_wr → Transfer chans a c → (b : TdArc) × Routes chans a b
  writing c k t = (record a { noc_id = 1; length = td_tile_bytes c.tag }, write a c k t)

  move_cases : ((b : TdArc) × Routes chans a b) ⊎ Stops chans a
  move_cases = elim (Option-cases (get_elem? chans a.chan)) [
    | inl e ↦ inr (missing e)
    | inr (c, e) ↦ elim (dec_lt 0 (td_tile_bytes c.tag)) [
      | no p ↦ inr (oversize c e (inl (omega arith)))
      | yes p ↦ elim (dec_le (td_tile_bytes c.tag) td_noc_max_xfer) [
        | no q ↦ inr (oversize c e (inr (omega arith)))
        | yes q ↦
            let t : Transfer chans a c = record { found = e; positive = p; bounded = q } in
            elim moves [ inl k ↦ inl (reading c k t) | inr k ↦ inl (writing c k t) ]
      ]
    ]
  ]

-- An arc has a route, or the loop stops there.
route_cases : (chans : List TdChan) (a : TdArc) → ((b : TdArc) × Routes chans a b) ⊎ Stops chans a
route_cases chans a = elim (Bool-cases (a.kind == td_ar_rd)) [
  | inl p ↦ move_cases chans a (inl (ground arith))
  | inr p ↦ elim (Bool-cases (a.kind == td_ar_wr)) [
    | inl q ↦ move_cases chans a (inr (ground arith))
    | inr q ↦ inl (a, sync a (λ e. ground arith) (λ e. ground arith))
  ]
]

complete :
    (chans : List TdChan) (as' bs : List TdArc)
    → AllRoutes chans as' bs
    → orchestrate_from chans as' ≡ (bs, bc_ok)
unfolding orchestrate_from
complete chans as' bs end = refl
complete chans as' bs (more a b as'' bs' r rs) =
    orchestrate_step chans a b as'' r
    ∙ ap (λ (x : List TdArc × ℤ). (b ∷ x.0, x.1)) (complete chans as'' bs' rs)

sound :
    (chans : List TdChan) (as' : List TdArc)
    → (orchestrate_from chans as').1 ≡ bc_ok
    → AllRoutes chans as' (orchestrate_from chans as').0
unfolding orchestrate_from Stops
sound chans [] ok = end
sound chans (a ∷ as') ok = elim (route_cases chans a) [
  | inl (b, r) ↦
      let step = orchestrate_step chans a b as' r in
      subst (λ (x : List TdArc × ℤ). AllRoutes chans (a ∷ as') x.0) (sym step)
        (more a b as' (orchestrate_from chans as').0 r
          (sound chans as' (sym (ap (λ (x : List TdArc × ℤ). x.1) step) ∙ ok)))
  | inr stop ↦ absurd (err_ne_ok (sym (stop as') ∙ ok))
]

address_fields :
    (l x y : ℕ)
    → l < 2 ^ 36
    → x < 2 ^ 6
    → bit_or (bit_or l (x * 2 ^ 36)) (y * 2 ^ 42) ≡ l + x * 2 ^ 36 + y * 2 ^ 42
address_fields l x y hl hx =
    let low : bit_or l (x * 2 ^ 36) ≡ l + x * 2 ^ 36 =
      omega (arith, bit_or_comm l (x * 2 ^ 36), bit_or_add 36 (x * 2 ^ 36) l (omega arith) hl) in
    rw low (
      omega (
        arith,
        bit_or_comm (l + x * 2 ^ 36) (y * 2 ^ 42),
        bit_or_add 42 (y * 2 ^ 42) (l + x * 2 ^ 36) (omega arith) (omega arith),
      ))

-- The three fields of an address of the network read back the low 36 bits of the local address
-- and the low 6 bits of each coordinate, and nothing stands above them.
pub td_noc_addr_lem :
    (x y local : ℕ)
    → (td_noc_addr x y local % 2 ^ 36 ≡ local % 2 ^ 36)
      × (td_noc_addr x y local / 2 ^ 36 % 2 ^ 6 ≡ x % 2 ^ 6)
      × (td_noc_addr x y local / 2 ^ 42 ≡ y % 2 ^ 6)
unfolding td_noc_addr
td_noc_addr_lem x y local =
    rw
      (
        bit_and_mask 36 local,
        bit_and_mask 6 x,
        bit_and_mask 6 y,
        address_fields (local % 2 ^ 36) (x % 2 ^ 6) (y % 2 ^ 6) (omega arith) (omega arith),
      )
      (omega arith, omega arith, omega arith)

module _ {B : Type 0} where
  pub td_noc_orchestrate_iff :
      (M : TdMod B) (bs : List TdArc)
      → (td_noc_orchestrate M ≡ (record M { arcs = bs }, bc_ok)) ↔ AllRoutes M.chans M.arcs bs
  unfolding td_noc_orchestrate
  td_noc_orchestrate_iff M bs = (
    (λ e.
        subst (AllRoutes M.chans M.arcs) (ap (λ (r : TdMod B × ℤ). r.0.arcs) e)
          (sound M.chans M.arcs (ap (λ (r : TdMod B × ℤ). r.1) e))),
    (λ rs i. (
      record M { arcs = (complete M.chans M.arcs bs rs i).0 },
      (complete M.chans M.arcs bs rs i).1,
    )),
  )
