-- ===== src/PushProfile/Messages.antt =====
-- The task of a Push-Profile request from the message that comes in to the message that goes out
-- (src/diameter_handlers.cpp over src/cx.cpp).
use homestead.Prelude.{◌≡◌, refl, ap, ◌∙◌, List, [], ◌∷◌, map}
use homestead.XmlUtils.{XmlLib}
use homestead.Irs.Elements.{VectorUtils}
use homestead.Diameter.{AvpName, DiameterLib}
use homestead.Cx.{str_of}
use homestead.Cx.Answers.{charging_addrs}
use homestead.Cx.Pushed.{push_profile_answer}
use homestead.RegistrationTermination.{ResultAvp}
use homestead.RegistrationTermination.Messages.{result_text}
use homestead.PushProfile.{PushProfileRequest, ProfilePeers, ProfileAction, run}
use homestead.PushProfile.Answered.{ppas, ppa_for, accepted, ReportsOnce, ppas-run}

module _ (d : DiameterLib) where
  -- What the task reads from its message.
  unfoldable pub request_of : d.Message → PushProfileRequest
  request_of ppr = record {
    impi = d.impi ppr;
    user_data = str_of d AvpName.user_data ppr;
    charging_addrs = charging_addrs d ppr;
  }

  unfoldable pub send_ppa : d.Message → ResultAvp → d.Message
  send_ppa ppr code = push_profile_answer d ppr (result_text code) (d.auth_session_state ppr)

  -- The messages that a run sends.
  unfoldable pub sent : d.Message → List ProfileAction → List d.Message
  unfolding send_ppa
  sent ppr [] = []
  sent ppr (ProfileAction.send_ppa code ∷ rest) = send_ppa ppr code ∷ sent ppr rest
  sent ppr (_ ∷ rest) = sent ppr rest

  -- The task for a message.
  unfoldable pub handle : VectorUtils → XmlLib → ProfilePeers → d.Message → List d.Message
  unfolding request_of sent
  handle utils xml peers ppr = sent ppr (run utils xml peers (request_of ppr))

  sent-ppas :
      (ppr : d.Message) (trace : List ProfileAction)
      → sent ppr trace ≡ map (send_ppa ppr) (ppas trace)
  unfolding sent
  sent-ppas ppr [] = refl
  sent-ppas ppr (ProfileAction.send_ppa code ∷ rest) =
      ap (λ more. send_ppa ppr code ∷ more) (sent-ppas ppr rest)
  sent-ppas ppr (ProfileAction.get_ims_sub impi ∷ rest) = sent-ppas ppr rest
  sent-ppas ppr (ProfileAction.change_associated_identities id text ∷ rest) = sent-ppas ppr rest
  sent-ppas ppr (ProfileAction.put_ims_sub sub ∷ rest) = sent-ppas ppr rest
  sent-ppas ppr (ProfileAction.done ∷ rest) = sent-ppas ppr rest

  -- If the cache calls back with progress once before a success and never before a failure, one answer is
  -- sent for a message, with the code that the task has for what it reads.
  pub handle_lem :
      (utils : VectorUtils) (xml : XmlLib) (peers : ProfilePeers) (ppr : d.Message)
      → ReportsOnce peers
      → handle utils xml peers ppr
        ≡ (send_ppa ppr (ppa_for (accepted utils xml peers (request_of ppr))) ∷ [])
  unfolding handle
  handle_lem utils xml peers ppr h =
      sent-ppas ppr (run utils xml peers (request_of ppr))
      ∙ ap (map (send_ppa ppr)) (ppas-run utils xml peers (request_of ppr) h)
