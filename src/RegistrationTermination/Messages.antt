-- ===== src/RegistrationTermination/Messages.antt =====
-- The task of a Registration-Termination request from the message that comes in to the message that goes
-- out (src/diameter_handlers.cpp over src/cx.cpp).
use homestead.Prelude.{
  zero, suc, String, Bool, true, false, ◌≡◌, refl, ap, sym, ◌∙◌, List, [], ◌∷◌, if◌then◌else◌, map,
  arith,
}
use homestead.Prelude.Int.{ℤ, pos, eq_ℤ}
use homestead.Diameter.{AvpName, DiameterLib, DiameterLaws, add_all, named}
use homestead.Cx.{str_avp}
use homestead.Cx.Pushed.{
  registration_termination_request, associated_identities, impus, deregistration_reason,
  registration_termination_answer, response,
}
use homestead.Cx.Reads.{
  reads, read-registration_termination_request,
  associated_identities-registration_termination_answer,
}
use homestead.RegistrationTermination.{
  DeregistrationReason, TerminationRequest, ResultAvp, Peers, Action, run,
}
use homestead.RegistrationTermination.Answered.{answers, rta_for, accepted, selected, answers-run}

-- The numbers of the reasons.
unfoldable pub reason_of : ℤ → DeregistrationReason
reason_of code =
    if eq_ℤ code (pos 0)
    then DeregistrationReason.permanent_termination
    else if eq_ℤ code (pos 1)
    then DeregistrationReason.new_server_assigned
    else if eq_ℤ code (pos 2)
    then DeregistrationReason.server_change
    else if eq_ℤ code (pos 3)
    then DeregistrationReason.remove_scscf
    else DeregistrationReason.other

-- The texts of the result codes.
unfoldable pub result_text : ResultAvp → String
result_text ResultAvp.req_success = "DIAMETER_SUCCESS"
result_text ResultAvp.req_failure = "DIAMETER_UNABLE_TO_COMPLY"

-- The reasons by their numbers.
abbrev pub reason_numbered : ℤ → DeregistrationReason
reason_numbered (pos zero) = DeregistrationReason.permanent_termination
reason_numbered (pos (suc zero)) = DeregistrationReason.new_server_assigned
reason_numbered (pos (suc (suc zero))) = DeregistrationReason.server_change
reason_numbered (pos (suc (suc (suc zero)))) = DeregistrationReason.remove_scscf
reason_numbered _ = DeregistrationReason.other

reason_of_lem : (code : ℤ) → reason_of code ≡ reason_numbered code
unfolding reason_of
reason_of_lem code = ground arith

-- The text of the result.
abbrev pub text_for : Bool → String
text_for true = "DIAMETER_SUCCESS"
text_for false = "DIAMETER_UNABLE_TO_COMPLY"

module _ (d : DiameterLib) where
  -- A group with the names of users added, in order.
  abbrev pub with_names : List String → d.Avp → d.Avp
  with_names [] group = group
  with_names (name ∷ names) group =
      with_names names (d.in_avp.add (d.set_str name (d.avp AvpName.user_name)) group)

  -- The response to a request with a result, the session state of the request, and one group of names.
  abbrev pub answer_with : String → List String → d.Message → d.Message
  answer_with text names rtr =
      d.in_message.add (with_names names (d.avp AvpName.associated_identities)) (
        d.in_message.add (d.set_i32 (d.auth_session_state rtr) (d.avp AvpName.auth_session_state))
          (d.set_result_code text (d.add_app_id (d.build_response rtr))))

  add_all-with_names :
      (names : List String) (group : d.Avp)
      → add_all d.in_avp (map (str_avp d AvpName.user_name) names) group ≡ with_names names group
  unfolding add_all
  add_all-with_names [] group = refl
  add_all-with_names (name ∷ names) group =
      add_all-with_names names (d.in_avp.add (str_avp d AvpName.user_name name) group)

  answer_with_lem :
      (rtr : d.Message) (text impi : String) (others : List String)
      → registration_termination_answer d rtr text (d.auth_session_state rtr) (impi ∷ others)
        ≡ answer_with text (impi ∷ others) rtr
  unfolding registration_termination_answer add_all
  answer_with_lem rtr text impi others =
      ap (λ group. d.in_message.add group (response d rtr text (d.auth_session_state rtr)))
        (add_all-with_names (impi ∷ others) (d.avp AvpName.associated_identities))

  -- What the task reads from its message.
  unfoldable pub request_of : d.Message → TerminationRequest
  unfolding reason_of
  request_of rtr = record {
    deregistration_reason = reason_of (deregistration_reason d rtr);
    impi = d.impi rtr;
    associated_identities = associated_identities d rtr;
    impus = impus d rtr;
  }

  unfoldable pub send_rta : d.Message → ResultAvp → List String → d.Message
  unfolding result_text
  send_rta rtr code impis =
      registration_termination_answer d rtr (result_text code) (d.auth_session_state rtr) impis

  send_rta_lem :
      (rtr : d.Message) (ok : Bool) (impi : String) (others : List String)
      → send_rta rtr (rta_for ok) (impi ∷ others) ≡ answer_with (text_for ok) (impi ∷ others) rtr
  unfolding send_rta
  send_rta_lem rtr true impi others = answer_with_lem rtr (text_for true) impi others
  send_rta_lem rtr false impi others = answer_with_lem rtr (text_for false) impi others

  -- The messages that a run sends.
  unfoldable pub sent : d.Message → List Action → List d.Message
  unfolding send_rta
  sent rtr [] = []
  sent rtr (Action.send_rta code impis ∷ rest) = send_rta rtr code impis ∷ sent rtr rest
  sent rtr (_ ∷ rest) = sent rtr rest

  -- The task for a message.
  unfoldable pub handle : Peers → d.Message → List d.Message
  unfolding request_of sent
  handle peers rtr = sent rtr (run peers (request_of rtr))

  sent-answers :
      (rtr : d.Message) (trace : List Action)
      → sent rtr trace ≡ map (λ answer. send_rta rtr answer.0 answer.1) (answers trace)
  unfolding sent
  sent-answers rtr [] = refl
  sent-answers rtr (Action.send_rta code impis ∷ rest) =
      ap (λ more. send_rta rtr code impis ∷ more) (sent-answers rtr rest)
  sent-answers rtr (Action.get_irss_for_impis impis ∷ rest) = sent-answers rtr rest
  sent-answers rtr (Action.get_irss_for_impus ids ∷ rest) = sent-answers rtr rest
  sent-answers rtr (Action.deregister_bindings send ids impis ∷ rest) = sent-answers rtr rest
  sent-answers rtr (Action.delete_irss irss ∷ rest) = sent-answers rtr rest
  sent-answers rtr (Action.done ∷ rest) = sent-answers rtr rest

module _ (d : DiameterLib) (laws : DiameterLaws d) where
  impi-registration_termination_request :
      (reason auth : ℤ) (impi : String) (others ids : List String)
      → d.impi (registration_termination_request d reason impi others ids auth) ≡ impi
  unfolding registration_termination_request named
  impi-registration_termination_request reason auth impi [] ids =
      simp (laws.impi_lem, reads, laws.str_set)
  impi-registration_termination_request reason auth impi (other ∷ others) ids =
      simp (laws.impi_lem, reads, laws.str_set)

  -- The task reads a request as it was built.
  request_of-registration_termination_request :
      (reason auth : ℤ) (impi : String) (others ids : List String)
      → request_of d (registration_termination_request d reason impi others ids auth) ≡ record {
        deregistration_reason = reason_of reason;
        impi = impi;
        associated_identities = others;
        impus = ids;
      }
  unfolding request_of
  request_of-registration_termination_request reason auth impi others ids =
      let read = read-registration_termination_request d laws reason auth impi others ids in
      ground (
        arith,
        read.0,
        read.1,
        ap reason_of read.2,
        impi-registration_termination_request reason auth impi others ids,
      )

  -- For a Diameter library that keeps its laws, a termination request that the HSS builds is answered with
  -- exactly one message, which `answer_with` writes out: its text is DIAMETER_SUCCESS if the reason with
  -- that number, the identities and the replies of the cache and Sprout are accepted by the tables, and
  -- else DIAMETER_UNABLE_TO_COMPLY, and the HSS reads all its private identities from it, its own first.
  pub handle-registration_termination_request :
      (peers : Peers) (reason auth : ℤ) (impi : String) (others ids : List String)
      → (let rtr = registration_termination_request d reason impi others ids auth in
          let impis = impi ∷ others in
          let chosen = selected peers (reason_numbered reason) impis ids in
          let text = text_for (accepted peers (reason_numbered reason) impis chosen) in
          (handle d peers rtr ≡ (answer_with d text impis rtr ∷ []))
          × (associated_identities d (answer_with d text impis rtr) ≡ impis))
  unfolding handle
  handle-registration_termination_request peers reason auth impi others ids =
      let rtr = registration_termination_request d reason impi others ids auth in
      let impis = impi ∷ others in
      let chosen = selected peers (reason_numbered reason) impis ids in
      let ok = accepted peers (reason_numbered reason) impis chosen in
      (
        rw (request_of-registration_termination_request reason auth impi others ids) (
            rw (reason_of_lem reason) (
              sent-answers d rtr (run peers _)
              ∙ ap (map (λ answer. send_rta d rtr answer.0 answer.1)) (answers-run peers _)
              ∙ ap (λ message. message ∷ []) (send_rta_lem d rtr ok impi others))),
        ap (associated_identities d) (sym (answer_with_lem d rtr (text_for ok) impi others))
            ∙ associated_identities-registration_termination_answer d laws rtr (text_for ok)
                (d.auth_session_state rtr) impis,
      )
