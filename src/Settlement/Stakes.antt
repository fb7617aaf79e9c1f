-- ===== src/Settlement/Stakes.antt =====
-- The grouping of positions keeps what each user has staked, and has each user and side once.
use mpulse.Common.{
  ℕ, ◌+◌, ◌≡◌, refl, ap, Bool, true, false, ◌&&◌, ◌||◌, List, [], ◌∷◌, inl, inr, ok, arith, ◌==◌,
  if◌then◌else◌, Bool-cases, >>=-eq-ok,
}
use mpulse.Common.Int.{ℤ, pos, eqb_ℤ}
use mpulse.Settlement.Types.{SettlementSide, same_side, Position, Stake}
use mpulse.Settlement.Plan.{
  parse_shares, add_stake, group_from, group_coin_position_stakes, total_stake,
}

-- What a user paid for positions.
abbrev pub user_cost : ℕ → List Position → ℕ
user_cost user [] = 0
user_cost user (p ∷ positions) =
    (if p.position_user == user then p.total_cost_coin_micros else 0) + user_cost user positions

abbrev pub total_cost : List Position → ℕ
total_cost [] = 0
total_cost (p ∷ positions) = p.total_cost_coin_micros + total_cost positions

abbrev pub user_stake : ℕ → List Stake → ℕ
user_stake user [] = 0
user_stake user (s ∷ grouped) =
    (if s.stake_user == user then s.original_stake_coin_micros else 0) + user_stake user grouped

-- What all users paid for one side.
abbrev pub side_cost : SettlementSide → List Position → ℕ
side_cost side [] = 0
side_cost side (p ∷ positions) =
    (if same_side p.position_side side then p.total_cost_coin_micros else 0)
    + side_cost side positions

abbrev pub side_stake : SettlementSide → List Stake → ℕ
side_stake side [] = 0
side_stake side (s ∷ grouped) =
    (if same_side s.stake_side side then s.original_stake_coin_micros else 0)
    + side_stake side grouped

abbrev pub has_stake : ℕ → SettlementSide → List Stake → Bool
has_stake user side [] = false
has_stake user side (s ∷ grouped) =
    s.stake_user == user && same_side s.stake_side side || has_stake user side grouped

-- No two stakes have the same user and side.
abbrev pub IsDistinct : List Stake → Type 0
IsDistinct [] = Unit
IsDistinct (s ∷ grouped) =
    (has_stake s.stake_user s.stake_side grouped ≡ false) × IsDistinct grouped

pub same_side→eq : (a b : SettlementSide) → same_side a b ≡ true → a ≡ b
unfolding same_side
same_side→eq SettlementSide.yes_side SettlementSide.yes_side h = refl
same_side→eq SettlementSide.yes_side SettlementSide.no_side h = cc
same_side→eq SettlementSide.no_side SettlementSide.yes_side h = cc
same_side→eq SettlementSide.no_side SettlementSide.no_side h = refl

same_side_comm : (a b : SettlementSide) → same_side a b ≡ same_side b a
unfolding same_side
same_side_comm SettlementSide.yes_side SettlementSide.yes_side = refl
same_side_comm SettlementSide.yes_side SettlementSide.no_side = refl
same_side_comm SettlementSide.no_side SettlementSide.yes_side = refl
same_side_comm SettlementSide.no_side SettlementSide.no_side = refl

module _ (user : ℕ) (side : SettlementSide) (cost : ℕ) (shares : ℤ) where
  total_stake-add :
      (g : List Stake) → total_stake (add_stake user side cost shares g) ≡ total_stake g + cost
  unfolding add_stake total_stake
  total_stake-add [] = omega arith
  total_stake-add (s ∷ g) = ground (arith, total_stake-add g)

  user_stake-add :
      (u : ℕ) (g : List Stake)
      → user_stake u (add_stake user side cost shares g)
        ≡ user_stake u g + (if user == u then cost else 0)
  unfolding add_stake
  user_stake-add u [] = ground arith
  user_stake-add u (s ∷ g) = ground (arith, user_stake-add u g)

  side_stake-add :
      (x : SettlementSide) (g : List Stake)
      → side_stake x (add_stake user side cost shares g)
        ≡ side_stake x g + (if same_side side x then cost else 0)
  unfolding add_stake
  side_stake-add x [] = ground arith
  side_stake-add x (s ∷ g) =
      elim (Bool-cases (s.stake_user == user && same_side s.stake_side side)) [
        | inl here ↦
            let e : s.stake_side ≡ side = same_side→eq s.stake_side side (ground arith) in
            rw (here, e) (ground arith)
        | inr elsewhere ↦ rw elsewhere (omega (arith, side_stake-add x g))
      ]

  has_stake-add :
      (u : ℕ) (x : SettlementSide) (g : List Stake)
      → has_stake u x (add_stake user side cost shares g) ≡ true
      → has_stake u x g ≡ false
      → (user ≡ u) × (same_side side x ≡ true)
  unfolding add_stake
  has_stake-add u x [] h k = ground arith
  has_stake-add u x (s ∷ g) h k = ground (arith, has_stake-add u x g)

  add_stake-IsDistinct :
      (g : List Stake) → IsDistinct g → IsDistinct (add_stake user side cost shares g)
  unfolding add_stake
  add_stake-IsDistinct [] d = (refl, tt)
  add_stake-IsDistinct (s ∷ g) d =
      elim (Bool-cases (s.stake_user == user && same_side s.stake_side side)) [
        | inl here ↦ rw here d
        | inr elsewhere ↦
            rw elsewhere
              (elim (Bool-cases
                (has_stake s.stake_user s.stake_side (add_stake user side cost shares g))) [
                  | inl back ↦
                      let e = has_stake-add s.stake_user s.stake_side g back d.0 in
                      let c = same_side_comm s.stake_side side in absurd (ground arith)
                  | inr apart ↦ (apart, add_stake-IsDistinct g d.1)
                ])
      ]

-- A grouping keeps the total cost and every user's, and its stakes are distinct.
pub record Groups (positions : List Position) (start grouped : List Stake) : Type 0 where
  pub total : total_stake grouped ≡ total_stake start + total_cost positions
  pub per_user : (u : ℕ) → user_stake u grouped ≡ user_stake u start + user_cost u positions
  pub per_side :
      (x : SettlementSide) → side_stake x grouped ≡ side_stake x start + side_cost x positions
  pub distinct : IsDistinct start → IsDistinct grouped

keep_or_add :
    (p : Position) (shares : ℤ) (positions : List Position) (start grouped : List Stake)
    → Groups positions
        (if p.total_cost_coin_micros == 0 && eqb_ℤ shares (pos 0)
          then start
          else add_stake p.position_user p.position_side p.total_cost_coin_micros shares start)
        grouped
    → Groups (p ∷ positions) start grouped
keep_or_add p shares positions start grouped g =
    elim (Bool-cases (p.total_cost_coin_micros == 0 && eqb_ℤ shares (pos 0))) [
      | inl skip ↦
          let h : Groups positions start grouped = rw skip at g in
          let z : p.total_cost_coin_micros ≡ 0 = ground arith in
          record {
            total = omega (arith, h.total);
            per_user = λ u. ground (arith, h.per_user u);
            per_side = λ x. ground (arith, h.per_side x);
            distinct = h.distinct;
          }
      | inr kept ↦
          let h : Groups positions
              (add_stake p.position_user p.position_side p.total_cost_coin_micros shares start)
              grouped =
            rw kept at g in
          record {
            total = omega (
              arith,
              h.total,
              total_stake-add p.position_user p.position_side p.total_cost_coin_micros shares start,
            );
            per_user = λ u. ground (
              arith,
              h.per_user u,
              user_stake-add p.position_user p.position_side p.total_cost_coin_micros shares u
                  start,
            );
            per_side = λ x. ground (
              arith,
              h.per_side x,
              side_stake-add p.position_user p.position_side p.total_cost_coin_micros shares x
                  start,
            );
            distinct = λ d. h.distinct (add_stake-IsDistinct _ _ _ shares start d);
          }
    ]

group_from-Groups :
    (positions : List Position) (start grouped : List Stake)
    → group_from positions start ≡ ok grouped
    → Groups positions start grouped
unfolding group_from
group_from-Groups [] start grouped h =
    let e : start ≡ grouped = cc in
    record {
      total = omega (arith, ap total_stake e);
      per_user = λ u. omega (arith, ap (λ g. user_stake u g) e);
      per_side = λ x. omega (arith, ap (λ g. side_stake x g) e);
      distinct = λ d. rw (← e) d;
    }
group_from-Groups (p ∷ positions) start grouped h =
    let (shares, parsed, rest) = >>=-eq-ok (parse_shares p.shares) _ h in
    keep_or_add p shares positions start grouped (group_from-Groups positions _ grouped rest)

pub group-Groups :
    (positions : List Position) (grouped : List Stake)
    → group_coin_position_stakes positions ≡ ok grouped
    → Groups positions [] grouped
unfolding group_coin_position_stakes
group-Groups positions grouped h = group_from-Groups positions [] grouped h
