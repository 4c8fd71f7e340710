-- ===== src/Tests/Claims.antt =====
-- Two networks that carry the same prefix.
use meshp.Prelude.{◌≡◌, refl, true, [], ◌∷◌}
use meshp.Prelude.Equality.{string_eq}
use meshp.Prelude.Keyed.{elem}
use meshp.Netip.{Prefix, prefix_eq}
use meshp.Claims.{declare, contested, new_claims}
use meshp.Claims.Collision.{contested_mutual}

abbrev lan : Prefix
lan = record { addr = record { is4 = true; value = 3232235776 }; bits = 24 }

contested_mutual_example :
    (elem "wg1"
        (contested "wg0" lan (declare "wg1" (lan ∷ []) (declare "wg0" (lan ∷ []) new_claims)))
      ≡ elem lan (lan ∷ []))
    × (elem "wg0"
          (contested "wg1" lan (declare "wg1" (lan ∷ []) (declare "wg0" (lan ∷ []) new_claims)))
        ≡ elem lan (lan ∷ []))
contested_mutual_example = contested_mutual "wg0" "wg1" (lan ∷ []) (lan ∷ []) lan new_claims tt refl
