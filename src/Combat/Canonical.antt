-- ===== src/Combat/Canonical.antt =====
-- What `CanonicalizeInputs` promises: two inputs in the order of their ids, whatever came in.
use terminal_wrestling_leagu.Common.{
  ◌≡◌, refl, ◌⊎◌, inl, inr, arith, true, false, some, List, [], ◌∷◌, map, Bool-cases, Option-cases,
}
use terminal_wrestling_leagu.Common.Text.{
  Str, str_eq, str_lt, is_empty, str_eq_iff, str_eq_refl, str_eq_comm, str_lt_total, str_lt_ne,
  str_eq-false, str_lt_asymm,
}
use terminal_wrestling_leagu.Combat.Types.{
  Zone, zone_head, zone_torso, zone_legs, unknown_zone, MatchState, TurnInput, ok,
}
use terminal_wrestling_leagu.Combat.Order.{
  find_input, collect_inputs, all_known, default_input, normalize_zone, input_for, sort_pair,
  order_inputs, canonicalize_inputs,
}
use terminal_wrestling_leagu.Combat.Rounds.{>>=-ok}

abbrev pub KnownZone : Zone → Type 0
KnownZone (unknown_zone n) = ⊥
KnownZone _ = Unit

-- Two inputs, one for each fighter, in the order of their ids and with known targets.
pub record CanonicalPair (id1 id2 : Str) (xs : List TurnInput) : Type 0 where
  pub first : TurnInput
  pub second : TurnInput
  pub both : xs ≡ first ∷ second ∷ []
  pub sorted : str_lt first.player_id second.player_id ≡ true
  pub named :
      ((first.player_id ≡ id1) × (second.player_id ≡ id2))
      ⊎ ((first.player_id ≡ id2) × (second.player_id ≡ id1))
  pub present : (is_empty first.player_id ≡ false) × (is_empty second.player_id ≡ false)
  pub first_zone : KnownZone first.target
  pub second_zone : KnownZone second.target

find_input-id :
    (id : Str) (seen : List TurnInput) (x : TurnInput)
    → find_input id seen ≡ some x
    → x.player_id ≡ id
unfolding find_input
find_input-id id [] x e = cc
find_input-id id (y ∷ seen) x e = ground (arith, str_eq_iff y.player_id id, find_input-id id seen x)

input_for-id : (seen : List TurnInput) (id : Str) → (input_for seen id).player_id ≡ id
unfolding input_for
input_for-id seen id = elim (Option-cases (find_input id seen)) [
  | inl e ↦ rw (e, input_for, default_input) refl
  | inr (x, e) ↦ rw (e, input_for) (find_input-id id seen x e)
]

normalize_zone-KnownZone : (z : Zone) → KnownZone (normalize_zone z)
unfolding normalize_zone
normalize_zone-KnownZone zone_head = tt
normalize_zone-KnownZone zone_torso = tt
normalize_zone-KnownZone zone_legs = tt
normalize_zone-KnownZone (unknown_zone n) = tt

input_for-KnownZone : (seen : List TurnInput) (id : Str) → KnownZone (input_for seen id).target
unfolding input_for
input_for-KnownZone seen id = normalize_zone-KnownZone _

sort_pair-CanonicalPair :
    (id1 id2 : Str) (seen : List TurnInput)
    → is_empty id1 ≡ false
    → is_empty id2 ≡ false
    → str_eq id1 id2 ≡ false
    → CanonicalPair id1 id2 (map (input_for seen) (sort_pair id1 id2))
unfolding sort_pair
sort_pair-CanonicalPair id1 id2 seen p1 p2 ne = elim (Bool-cases (str_lt id2 id1)) [
  | inl lt ↦ rw lt (record {
    first = input_for seen id2;
    second = input_for seen id1;
    both = refl;
    sorted = rw (input_for-id seen id2, input_for-id seen id1) lt;
    named = inr (input_for-id seen id2, input_for-id seen id1);
    present = (rw (input_for-id seen id2) p2, rw (input_for-id seen id1) p1);
    first_zone = input_for-KnownZone seen id2;
    second_zone = input_for-KnownZone seen id1;
  })
  | inr ge ↦ rw ge (record {
    first = input_for seen id1;
    second = input_for seen id2;
    both = refl;
    sorted =
        rw (input_for-id seen id2, input_for-id seen id1)
          (rw (str_lt_total id1 id2 (str_eq-false id1 id2 ne), ge) refl);
    named = inl (input_for-id seen id1, input_for-id seen id2);
    present = (rw (input_for-id seen id1) p1, rw (input_for-id seen id2) p2);
    first_zone = input_for-KnownZone seen id1;
    second_zone = input_for-KnownZone seen id2;
  })
]

-- What the tests have established when the inputs are put in order.
order-ok :
    (id1 id2 : Str) (seen xs : List TurnInput)
    → order_inputs id1 id2 seen ≡ ok xs
    → (is_empty id1 ≡ false)
      × (is_empty id2 ≡ false)
      × (str_eq id1 id2 ≡ false)
      × (xs ≡ map (input_for seen) (sort_pair id1 id2))
unfolding order_inputs
order-ok id1 id2 seen xs e = ground arith

-- Inputs that are accepted become two: one for each fighter, in the order of the ids, with a known
-- target each.
pub canonicalize-CanonicalPair :
    (s : MatchState) (inputs xs : List TurnInput)
    → canonicalize_inputs s inputs ≡ ok xs
    → CanonicalPair s.p1.player_id s.p2.player_id xs
unfolding canonicalize_inputs
canonicalize-CanonicalPair s inputs xs e =
    let (seen, _, o) = >>=-ok (collect_inputs [] inputs) _ e in
    let (p1, p2, ne, shape) = order-ok s.p1.player_id s.p2.player_id seen xs o in
    rw shape (sort_pair-CanonicalPair s.p1.player_id s.p2.player_id seen p1 p2 ne)

collect_two :
    (a b : TurnInput)
    → is_empty a.player_id ≡ false
    → is_empty b.player_id ≡ false
    → str_eq a.player_id b.player_id ≡ false
    → collect_inputs [] (a ∷ b ∷ []) ≡ ok (b ∷ a ∷ [])
unfolding collect_inputs find_input
collect_two a b pa pb ne = ground arith

normalize_zone_known : (z : Zone) → KnownZone z → normalize_zone z ≡ z
unfolding normalize_zone
normalize_zone_known zone_head h = refl
normalize_zone_known zone_torso h = refl
normalize_zone_known zone_legs h = refl
normalize_zone_known (unknown_zone n) h = absurd h

input_for_hit :
    (a : TurnInput) (seen : List TurnInput)
    → KnownZone a.target
    → find_input a.player_id seen ≡ some a
    → input_for seen a.player_id ≡ a
unfolding input_for
input_for_hit a seen z e = rw (e, input_for) (rw (normalize_zone_known a.target z) refl)

find_first :
    (a b : TurnInput)
    → str_eq a.player_id b.player_id ≡ false
    → (find_input a.player_id (b ∷ a ∷ []) ≡ some a)
      × (find_input b.player_id (b ∷ a ∷ []) ≡ some b)
unfolding find_input
find_first a b ne =
    ground
      (arith, str_eq_refl a.player_id, str_eq_refl b.player_id, str_eq_comm b.player_id a.player_id)

order_two :
    (a b : TurnInput)
    → str_lt a.player_id b.player_id ≡ true
    → is_empty a.player_id ≡ false
    → is_empty b.player_id ≡ false
    → KnownZone a.target
    → KnownZone b.target
    → (order_inputs a.player_id b.player_id (b ∷ a ∷ []) ≡ ok (a ∷ b ∷ []))
      × (order_inputs b.player_id a.player_id (b ∷ a ∷ []) ≡ ok (a ∷ b ∷ []))
unfolding order_inputs all_known sort_pair
order_two a b lt pa pb za zb =
    let ne = str_lt_ne a.player_id b.player_id lt in
    let found = find_first a b ne in
    ground (
      arith,
      str_eq_refl a.player_id,
      str_eq_refl b.player_id,
      str_eq_comm b.player_id a.player_id,
      str_lt_asymm a.player_id b.player_id lt,
      input_for_hit a (b ∷ a ∷ []) za found.0,
      input_for_hit b (b ∷ a ∷ []) zb found.1,
    )

-- A pair in canonical form is a fixed point: the inputs that a match records and hands on are
-- accepted again, unchanged.
pub CanonicalPair-canonicalize :
    (s : MatchState) (xs : List TurnInput)
    → CanonicalPair s.p1.player_id s.p2.player_id xs
    → canonicalize_inputs s xs ≡ ok xs
unfolding canonicalize_inputs
CanonicalPair-canonicalize s xs c = ground (
  arith,
  collect_two c.first c.second c.present.0 c.present.1
      (str_lt_ne c.first.player_id c.second.player_id c.sorted),
  order_two c.first c.second c.sorted c.present.0 c.present.1 c.first_zone c.second_zone,
)

-- Canonicalizing twice is canonicalizing once.
pub canonicalize_idem :
    (s : MatchState) (inputs xs : List TurnInput)
    → canonicalize_inputs s inputs ≡ ok xs
    → canonicalize_inputs s xs ≡ ok xs
canonicalize_idem s inputs xs e =
    CanonicalPair-canonicalize s xs (canonicalize-CanonicalPair s inputs xs e)

-- The inputs of the two fighters are accepted in the order of the fighters, whatever they hold.
pub canonicalize_accepts :
    (s : MatchState) (x y : TurnInput)
    → x.player_id ≡ s.p1.player_id
    → y.player_id ≡ s.p2.player_id
    → is_empty s.p1.player_id ≡ false
    → is_empty s.p2.player_id ≡ false
    → str_eq s.p1.player_id s.p2.player_id ≡ false
    → (xs : List TurnInput) × (canonicalize_inputs s (x ∷ y ∷ []) ≡ ok xs)
unfolding canonicalize_inputs order_inputs all_known
canonicalize_accepts s x y hx hy p1 p2 ne = (
  map (input_for (y ∷ x ∷ [])) (sort_pair s.p1.player_id s.p2.player_id),
  simp
      (
        collect_two x y (rw hx p1) (rw hy p2) (rw (hx, hy) ne),
        hx,
        hy,
        p1,
        p2,
        ne,
        str_eq_refl s.p1.player_id,
        str_eq_refl s.p2.player_id,
      )
      (ground arith),
)
