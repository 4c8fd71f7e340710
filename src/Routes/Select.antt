-- ===== src/Routes/Select.antt =====
-- internal/routes/select.go: `Select`, and what it works on. SHA-256, the logarithm and the
-- division of floats are not code of the program: `Scores` stands for them. A score is positive,
-- and positive floats are ordered as the numbers that their bits spell, which stand for them.
-- IDs of advertisers are distinct, so that no two elements of the sort are equivalent.
use meshp.Prelude.{
  ℕ, ◌/◌, ◌^◌, Bool, true, false, not, ◌&&◌, Option, none, some, List, [], ◌∷◌, map, String, ltb,
  ◌==◌, if◌then◌else◌,
}
use Prim.Native.String.{◌++◌}
use meshp.Prelude.Int.{ℤ, positive_or, int_lt, int_same}
use meshp.Prelude.Equality.{equal, string_eq}
use meshp.Prelude.Order.{sort_by, string_lt}
use meshp.Health.Signals.{State, healthy, degraded, unknown, offline, unhealthy}

pub record Scores : Type 0 where
  pub sum : String → ℕ  -- the first 8 bytes of the SHA-256 of the bytes written
  pub quotient : ℕ → ℕ → ℕ  -- float64(weight) / -math.Log((n + 0.5) / 2^53), as its bits

pub data AdminState : Type 0 where
  enabled draining disabled : AdminState

pub data GroupMode : Type 0 where
  failover pinned : GroupMode

pub record Advertiser : Type 0 where
  pub id : String
  pub peer_public_key : String
  pub priority : ℤ
  pub weight : ℤ
  pub admin : AdminState
  pub health : State
  pub region : String
  pub city : String
  pub display_name : String

pub record Request : Type 0 where
  pub device_key : String
  pub current : String
  pub mode : GroupMode
  pub advertisers : List Advertiser

pub record Offer : Type 0 where
  pub advertiser : Advertiser
  pub score : ℕ

pub record Ranked : Type 0 where
  pub candidate : Offer
  pub class : ℕ
  pub is_draining : Bool

-- `healthClass`, with none for -1.
abbrev pub health_class : State → Option ℕ
health_class healthy = some 0
health_class degraded = some 1
health_class unknown = some 2
health_class unhealthy = none
health_class offline = none

abbrev pub is_disabled : AdminState → Bool
is_disabled disabled = true
is_disabled _ = false

abbrev pub drains : AdminState → Bool
drains draining = true
drains _ = false

-- math.Inf(1)
abbrev pub infinity : ℕ
infinity = 0x7ff0000000000000

abbrev pub differ : Bool → Bool → Bool
differ a b = if a then not b else b

-- The comparison of the sort.
unfoldable pub before : Ranked → Ranked → Bool
before a b =
    let x = a.candidate.advertiser in
    let y = b.candidate.advertiser in
    if differ a.is_draining b.is_draining
    then not a.is_draining
    else if not (a.class == b.class)
    then ltb a.class b.class
    else if not (int_same x.priority y.priority)
    then int_lt x.priority y.priority
    else if not (a.candidate.score == b.candidate.score)
    then ltb b.candidate.score a.candidate.score
    else string_lt x.id y.id

abbrev pub push {ℓ} : {A : Type ℓ} → Option A → List A → List A
push none rest = rest
push (some r) rest = r ∷ rest

-- The first part of `Select`: the advertiser that a pinned device keeps.
unfoldable pub keep_pinned : String → List Advertiser → Option Advertiser
keep_pinned current [] = none
keep_pinned current (a ∷ rest) =
    let later = keep_pinned current rest in
    if equal a.id current && not (is_disabled a.admin) then some a else later

abbrev pub kept_or : Option Advertiser → List Offer → List Offer
kept_or none rest = rest
kept_or (some a) rest = record { advertiser = a; score = infinity } ∷ []

abbrev pub is_pinned : GroupMode → Bool
is_pinned pinned = true
is_pinned failover = false

module _ (lib : Scores) where
  unfoldable pub rendezvous_score : String → String → ℕ → ℕ
  rendezvous_score device_key advertiser_id weight =
      lib.quotient weight (lib.sum (device_key ++ "\0" ++ advertiser_id) / 2 ^ 11)

  abbrev pub ranked_as : Request → Advertiser → Option ℕ → Option Ranked
  ranked_as req a none = none
  ranked_as req a (some class) =
      if drains a.admin && not (equal a.id req.current)
      then none
      else some (record {
        candidate = record {
          advertiser = a;
          score = rendezvous_score req.device_key a.id (positive_or 1 a.weight);
        };
        class = class;
        is_draining = drains a.admin;
      })

  -- The body of the loop: what it appends for one advertiser.
  unfoldable pub rank_one : Request → Advertiser → Option Ranked
  rank_one req a = if is_disabled a.admin then none else ranked_as req a (health_class a.health)

  unfoldable pub rank_all : Request → List Advertiser → List Ranked
  rank_all req [] = []
  rank_all req (a ∷ rest) = push (rank_one req a) (rank_all req rest)

  unfoldable pub by_rank : Request → List Offer
  by_rank req = map (λ r. r.candidate) (sort_by before (rank_all req req.advertisers))

  unfoldable pub select : Request → List Offer
  select req =
      if is_pinned req.mode && not (equal req.current "")
      then kept_or (keep_pinned req.current req.advertisers) (by_rank req)
      else by_rank req
