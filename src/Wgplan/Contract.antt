-- ===== src/Wgplan/Contract.antt =====
-- The contract of `For` on the interface of `Host`.
use meshp.Prelude.{◌≡◌, List, []}
use meshp.Prelude.Equality.{string_eq}
use meshp.Prelude.Result.{ok}
use meshp.Wgplan.Types.{Texts, Interface, Op}
use meshp.Wgplan.Plan.{plan}
use meshp.Wgplan.Validate.{validate, plan_for}
use meshp.Wgplan.Host.{Choices, Host, observe}
use meshp.Prelude.Result.{seq_ok, ok_same}

module _ (os : Choices) (t : Texts) (want : Interface) where
  -- A plan that is made is that of a valid configuration.
  pub planned :
      (h : Host) (ops : List Op)
      → plan_for t want (observe h) ≡ ok ops
      → (validate t want ≡ ok tt) × (plan t want (observe h) ≡ ops)
  unfolding plan_for
  planned h ops e =
      let (valid, made) = seq_ok (validate t want) (ok (plan t want (observe h))) ops e in
      (valid, ok_same _ _ made)

  pub for_idle :
      (h : Host)
      → validate t want ≡ ok tt
      → plan t want (observe h) ≡ []
      → plan_for t want (observe h) ≡ ok []
  unfolding plan_for
  for_idle h valid none_left = rw (valid, none_left)
