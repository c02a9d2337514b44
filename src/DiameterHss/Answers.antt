-- ===== src/DiameterHss/Answers.antt =====
-- What the answers that are created from Diameter messages can be (src/diameter_hss_connection.cpp).
use homestead.Prelude.{ℕ, Bool, true, false, ◌≡◌, ◌≢◌, ◌⊎◌, ◌||◌, List, [], ◌∷◌, arith}
use homestead.Prelude.Int.{ℤ, pos, eq_ℤ}
use homestead.HssConnection.{ResultCode, AuthSchemes, Fits}
use homestead.Diameter.{DiameterLib}
use homestead.Cx.Answers.{Encoders}
use homestead.DiameterHss.{create_maa, create_uaa, create_lia, create_saa}

module _ (d : DiameterLib) (enc : Encoders) (schemes : AuthSchemes) where
  -- A success carries a vector of the kind that its scheme stands for.
  pub create_maa-Fits : (m : d.Message) → Fits schemes (create_maa d enc schemes m)
  unfolding create_maa
  create_maa-Fits m = ground arith

  pub create_maa-ne-timeout :
      (m : d.Message) → (create_maa d enc schemes m).result ≢ ResultCode.timeout
  unfolding create_maa
  create_maa-ne-timeout m h = ground arith

module _ (d : DiameterLib) where
  pub create_saa-ne-timeout : (m : d.Message) → (create_saa d m).result ≢ ResultCode.timeout
  unfolding create_saa
  create_saa-ne-timeout m h = ground arith

-- IMS mandates that at most one of the two codes is set.
abbrev pub IsExclusive : (d : DiameterLib) → d.Message → Type 0
IsExclusive d m = (d.result_code m ≡ pos 0) ⊎ ((d.experimental_result m).0 ≡ pos 0)

-- Whether a number is one of a list.
abbrev pub is_in : ℤ → List ℕ → Bool
is_in z [] = false
is_in z (n ∷ ns) = eq_ℤ z (pos n) || is_in z ns

module _ (d : DiameterLib) where
  -- The codes that are sent on to the client.
  pub json_result-create_uaa :
      (m : d.Message)
      → IsExclusive d m
      → (create_uaa d m).result ≡ ResultCode.success
      → is_in (create_uaa d m).json_result (2001 ∷ 2002 ∷ []) ≡ true
  unfolding create_uaa
  json_result-create_uaa m only h = ground arith

  pub json_result-create_lia :
      (m : d.Message)
      → IsExclusive d m
      → (create_lia d m).result ≡ ResultCode.success
      → is_in (create_lia d m).json_result (2001 ∷ 2003 ∷ 5003 ∷ []) ≡ true
  unfolding create_lia
  json_result-create_lia m only h = ground arith
