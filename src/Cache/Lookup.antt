-- ===== src/Cache/Lookup.antt =====
-- What the reads of the cache return (src/memcached_cache.cpp, src/base_hss_cache.cpp).
use homestead.Prelude.{
  ℕ, suc, String, true, ◌≡◌, ◌≤◌, ◌⊎◌, inl, inr, refl, Option, none, some, List, [], ◌∷◌, ◌+◌,
  arith, Bool-cases,
}
use homestead.Prelude.Int.{ℤ}
use homestead.Prelude.Lists.{contains, length, length-append}
use homestead.Store.{Status, is_ok}
use homestead.ImpuStore.{
  DefaultImpu, AssociatedImpu, Impu, default, associated, has_associated_impu,
}
use homestead.Irs.{Irs, irs_of_impu}
use homestead.Cache.{
  MemcachedCache, is_not_found, get_impu_for_impu_gr, check_target, resolve_impu,
  get_implicit_registration_set_for_impu, get_impus_for_impi,
}
use homestead.Cache.RemoteReads.{ReadsOnly, AllReadOnly, Has, get_impu_for_impu_gr-Has}
use homestead.Cache.Subscription.{
  get_implicit_registration_sets_for_impus, found_irs, get_ims_subscription, ImsSubscription,
  ims_subscription, subscribed,
}

found_irs_one : (irs : Option Irs) (n : ℕ) → n + length (found_irs irs) ≤ suc n
found_irs_one none n = omega arith
found_irs_one (some irs) n = omega arith

-- A subscription made from a list of at most one IRS.
abbrev pub sub_size : Option ImsSubscription → ℕ
sub_size none = 0
sub_size (some sub) = length sub

ims_subscription_one : (irss : List Irs) → length irss ≤ 1 → length (ims_subscription irss []) ≤ 1
unfolding ims_subscription
ims_subscription_one [] h = omega arith
ims_subscription_one (irs ∷ []) h = omega arith
ims_subscription_one (irs ∷ irs' ∷ irss) h = omega arith

subscribed_one :
    {W : Type 0} (r : (Status × List Irs) × W) → length r.0.1 ≤ 1 → sub_size (subscribed r).0.1 ≤ 1
subscribed_one ((status, irss), w) h = elim (Bool-cases (is_ok status)) [
  | inl e ↦ rw e (ims_subscription_one irss h)
  | inr e ↦ rw e (omega arith)
]

module _ {W : Type 0} where
  -- What `get_implicit_registration_set_for_impu` may take an IRS from: the record of the IMPU itself
  -- or, where that is an associated one, the record it points to if that lists the IMPU.
  abbrev pub Serves : MemcachedCache W → String → W → DefaultImpu → Type 0
  Serves cache impu w d =
      (get_impu_for_impu_gr cache impu w).0 ≡ (Status.ok, some (default d))
      ⊎ ((a : AssociatedImpu) × (get_impu_for_impu_gr cache impu w).0
            ≡ (Status.ok, some (associated a))
          × (get_impu_for_impu_gr cache a.default_impu (get_impu_for_impu_gr cache impu w).1).0
            ≡ (Status.ok, some (default d))
          × has_associated_impu d impu ≡ true)

  check_target_sound :
      (impu : String) (now : ℤ) (r : (Status × Option Impu) × W) (irs : Irs)
      → (check_target impu now r).0 ≡ (Status.ok, some irs)
      → (d : DefaultImpu) × irs ≡ irs_of_impu d now
        × r.0 ≡ (Status.ok, some (default d))
        × has_associated_impu d impu ≡ true
  unfolding check_target
  check_target_sound impu now ((Status.ok, some (default d)), w) irs e =
      elim (Bool-cases (has_associated_impu d impu)) [
        | inl h ↦ (d, (ground arith), refl, h)
        | inr h ↦ ground arith
      ]
  check_target_sound impu now ((Status.ok, some (associated a)), w) irs e = ground arith
  check_target_sound impu now ((Status.ok, none), w) irs e = ground arith
  check_target_sound impu now ((Status.not_found, x), w) irs e = ground arith
  check_target_sound impu now ((Status.data_contention, x), w) irs e = ground arith
  check_target_sound impu now ((Status.error, x), w) irs e = ground arith

  resolve_impu_sound :
      (cache : MemcachedCache W) (impu : String) (now : ℤ) (r : (Status × Option Impu) × W)
      (irs : Irs)
      → (resolve_impu cache impu now r).0 ≡ (Status.ok, some irs)
      → (d : DefaultImpu) × irs ≡ irs_of_impu d now
        × (r.0 ≡ (Status.ok, some (default d))
            ⊎ ((a : AssociatedImpu) × r.0 ≡ (Status.ok, some (associated a))
                × (get_impu_for_impu_gr cache a.default_impu r.1).0 ≡ (Status.ok, some (default d))
                × has_associated_impu d impu ≡ true))
  unfolding resolve_impu
  resolve_impu_sound cache impu now ((Status.ok, some (default d)), w) irs e =
      (d, (ground arith), inl refl)
  resolve_impu_sound cache impu now ((Status.ok, some (associated a)), w) irs e =
      let (d, same, found, lists) =
        check_target_sound impu now (get_impu_for_impu_gr cache a.default_impu w) irs e in
      (d, same, inr (a, refl, found, lists))
  resolve_impu_sound cache impu now ((Status.ok, none), w) irs e = ground arith
  resolve_impu_sound cache impu now ((Status.not_found, x), w) irs e = ground arith
  resolve_impu_sound cache impu now ((Status.data_contention, x), w) irs e = ground arith
  resolve_impu_sound cache impu now ((Status.error, x), w) irs e = ground arith

  -- An IRS that is returned with OK is built from a record that serves the IMPU: its own default
  -- record, or the default record that its associated record points to and that lists the IMPU.
  pub get_implicit_registration_set_for_impu_sound :
      (cache : MemcachedCache W) (impu : String) (now : ℤ) (w : W) (irs : Irs)
      → (get_implicit_registration_set_for_impu cache impu now w).0 ≡ (Status.ok, some irs)
      → (d : DefaultImpu) × irs ≡ irs_of_impu d now × Serves cache impu w d
  unfolding get_implicit_registration_set_for_impu
  get_implicit_registration_set_for_impu_sound cache impu now w irs e =
      resolve_impu_sound cache impu now (get_impu_for_impu_gr cache impu w) irs e

  -- The default record of an IMPU, or of the default IMPU that its associated record points to, which
  -- then lists the IMPU.
  abbrev pub IsServed : MemcachedCache W → String → W → DefaultImpu → Type 0
  IsServed cache impu w d =
      Has cache impu w (default d)
      ⊎ ((a : AssociatedImpu) × Has cache impu w (associated a)
          × Has cache a.default_impu w (default d)
          × contains impu d.associated_impus ≡ true)

  -- Over stores whose reads change nothing, the IRS of an IMPU is read with OK if the local store has the
  -- IMPU's default record, or says that it has none and the first remote store that answers OK has it; and
  -- if an associated record is found in this way instead, whose default IMPU's default record is found so
  -- too and lists the IMPU.
  pub get_implicit_registration_set_for_impu_complete :
      (cache : MemcachedCache W) (impu : String) (now : ℤ) (w : W) (d : DefaultImpu)
      → ReadsOnly cache.local_store
      → AllReadOnly cache.remote_stores
      → IsServed cache impu w d
      → get_implicit_registration_set_for_impu cache impu now w
        ≡ ((Status.ok, some (irs_of_impu d now)), w)
  unfolding get_implicit_registration_set_for_impu resolve_impu check_target has_associated_impu
  get_implicit_registration_set_for_impu_complete cache impu now w d h hs (inl e) =
      rw (get_impu_for_impu_gr-Has cache impu w (default d) h hs e) refl
  get_implicit_registration_set_for_impu_complete cache impu now w d h hs (inr (a, e, f, lists)) =
      rw (get_impu_for_impu_gr-Has cache impu w (associated a) h hs e)
        (rw (get_impu_for_impu_gr-Has cache a.default_impu w (default d) h hs f, lists) refl)

  -- However many IMPUs are looked up, at most one IRS joins the result: the loop ends at the first
  -- that is found.
  pub get_implicit_registration_sets_for_impus_one :
      (cache : MemcachedCache W) (now : ℤ) (impus : List String) (result : List Irs) (w : W)
      → length (get_implicit_registration_sets_for_impus cache now impus result w).0.1
        ≤ suc (length result)
  unfolding get_implicit_registration_sets_for_impus
  get_implicit_registration_sets_for_impus_one cache now [] result w = omega arith
  get_implicit_registration_sets_for_impus_one cache now (impu ∷ impus) result w =
      let r = get_implicit_registration_set_for_impu cache impu now w in
      let rest = get_implicit_registration_sets_for_impus_one cache now impus result r.1 in
      elim (Bool-cases (is_ok r.0.0)) [
        | inl e ↦
            rw (e, length-append result (found_irs r.0.1)) (found_irs_one r.0.1 (length result))
        | inr e ↦ elim (Bool-cases (is_not_found r.0.0)) [
          | inl f ↦ rw (e, f) rest
          | inr f ↦ rw (e, f) (omega arith)
        ]
      ]

  -- The subscription that is read for an IMPI has at most one IRS.
  pub get_ims_subscription_one :
      (cache : MemcachedCache W) (now : ℤ) (impi : String) (w : W)
      → sub_size (get_ims_subscription cache now impi w).0.1 ≤ 1
  unfolding get_ims_subscription
  get_ims_subscription_one cache now impi w =
      let r = get_impus_for_impi cache impi w in
      elim (Bool-cases (is_ok r.0.0)) [
        | inl e ↦ rw e (
            subscribed_one (get_implicit_registration_sets_for_impus cache now r.0.1 [] r.1)
              (get_implicit_registration_sets_for_impus_one cache now r.0.1 [] r.1))
        | inr e ↦ rw e (omega arith)
      ]
