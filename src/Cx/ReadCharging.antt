-- ===== src/Cx/ReadCharging.antt =====
-- Which charging addresses are read from the messages that are built (src/cx.cpp).
use homestead.Prelude.{
  ℕ, String, false, ◌≡◌, ◌&&◌, refl, Option, none, some, List, [], ◌∷◌, if◌then◌else◌,
}
use homestead.Prelude.Int.{ℤ}
use homestead.ImpuStore.{ChargingAddresses, is_empty_list}
use homestead.Diameter.{AvpName, same, DiameterLib, DiameterLaws, named}
use homestead.Cx.Answers.{
  code_first, result_avp, charging_avp, charging_addrs, server_assignment_answer,
}
use homestead.Cx.Pushed.{push_profile_request}
use homestead.Cx.Reads.{reads}
use homestead.Cx.ReadAnswers.{name-result_avp}
use mathlib.Core.Option

abbrev pub addresses : List String → List String → ChargingAddresses
addresses ccfs ecfs = record { ccfs = ccfs; ecfs = ecfs }

-- The first two CCFs; with two CCFs the first two ECFs, which must be there, and else the first ECF.
abbrev pub kept : List String → List String → Option ChargingAddresses
kept [] [] = some (addresses [] [])
kept [] (e ∷ ecfs) = some (addresses [] (e ∷ []))
kept (c ∷ []) [] = some (addresses (c ∷ []) [])
kept (c ∷ []) (e ∷ ecfs) = some (addresses (c ∷ []) (e ∷ []))
kept (c ∷ c' ∷ ccfs) (e ∷ e' ∷ ecfs) = some (addresses (c ∷ c' ∷ []) (e ∷ e' ∷ []))
kept (c ∷ c' ∷ ccfs) _ = none

abbrev pub unless_empty : ChargingAddresses → Option ChargingAddresses
unless_empty addrs =
    if is_empty_list addrs.ccfs && is_empty_list addrs.ecfs then none else some addrs

module _ (d : DiameterLib) (laws : DiameterLaws d) where
  not_charging :
      (code experimental : ℤ) (vendor : ℕ)
      → same AvpName.charging_information
          (d.name_of (result_avp d code (code_first d vendor experimental)))
        ≡ false
  not_charging code experimental vendor =
      name-result_avp d laws AvpName.charging_information code (code_first d vendor experimental)
        refl refl

  -- For a Diameter library that keeps its laws, the charging addresses of a server assignment are read as
  -- the table keeps them, and as none if there are none; where the table has nothing, building the
  -- message is undefined.
  pub charging_addrs-server_assignment_answer :
      (code experimental : ℤ) (vendor : ℕ) (text wildcard : String) (ccfs ecfs : List String)
      → Option.map
          (charging_addrs d)
          (server_assignment_answer d code vendor experimental text (addresses ccfs ecfs) wildcard)
        ≡ Option.map unless_empty (kept ccfs ecfs)
  unfolding server_assignment_answer charging_addrs named charging_avp
  charging_addrs-server_assignment_answer code experimental vendor text wildcard [] [] =
      simp (reads, not_charging code experimental vendor)
  charging_addrs-server_assignment_answer code experimental vendor text wildcard [] (e ∷ ecfs) =
      simp (reads, laws.str_set, not_charging code experimental vendor)
  charging_addrs-server_assignment_answer code experimental vendor text wildcard (c ∷ []) [] =
      simp (reads, laws.str_set, not_charging code experimental vendor)
  charging_addrs-server_assignment_answer code experimental vendor text wildcard (c ∷ [])
        (e ∷ ecfs) =
      simp (reads, laws.str_set, not_charging code experimental vendor)
  charging_addrs-server_assignment_answer code experimental vendor text wildcard (c ∷ c' ∷ ccfs)
        [] =
      refl
  charging_addrs-server_assignment_answer code experimental vendor text wildcard (c ∷ c' ∷ ccfs)
        (e ∷ []) =
      refl
  charging_addrs-server_assignment_answer code experimental vendor text wildcard (c ∷ c' ∷ ccfs)
        (e ∷ e' ∷ ecfs) =
      simp (reads, laws.str_set, not_charging code experimental vendor)

  -- A pushed profile is read with the addresses that the table keeps.
  pub charging_addrs-push_profile_request :
      (impi text : String) (auth : ℤ) (ccfs ecfs : List String)
      → Option.map (charging_addrs d) (push_profile_request d impi text (addresses ccfs ecfs) auth)
        ≡ Option.map unless_empty (kept ccfs ecfs)
  unfolding push_profile_request charging_addrs named charging_avp
  charging_addrs-push_profile_request impi text auth [] [] = simp reads
  charging_addrs-push_profile_request impi text auth [] (e ∷ ecfs) = simp (reads, laws.str_set)
  charging_addrs-push_profile_request impi text auth (c ∷ []) [] = simp (reads, laws.str_set)
  charging_addrs-push_profile_request impi text auth (c ∷ []) (e ∷ ecfs) =
      simp (reads, laws.str_set)
  charging_addrs-push_profile_request impi text auth (c ∷ c' ∷ ccfs) [] = refl
  charging_addrs-push_profile_request impi text auth (c ∷ c' ∷ ccfs) (e ∷ []) = refl
  charging_addrs-push_profile_request impi text auth (c ∷ c' ∷ ccfs) (e ∷ e' ∷ ecfs) =
      simp (reads, laws.str_set)
