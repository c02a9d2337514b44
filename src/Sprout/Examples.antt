-- ===== src/Sprout/Examples.antt =====
-- Two public identities that are deregistered for one private identity.
use homestead.Prelude.{◌≡◌, some, [], ◌∷◌}
use homestead.Sprout.{rtr_create_body}
use homestead.Sprout.Bodies.{bindings, bindings-rtr_create_body}

bindings-rtr_create_body_example :
    bindings (rtr_create_body ("sip:a" ∷ "sip:b" ∷ []) ("alice@home" ∷ []))
    ≡ ((some "sip:a", some "alice@home") ∷ (some "sip:b", some "alice@home") ∷ [])
bindings-rtr_create_body_example =
    bindings-rtr_create_body ("sip:a" ∷ "sip:b" ∷ []) ("alice@home" ∷ [])
