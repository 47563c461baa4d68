-- ===== src/Protocol/Kinds.antt =====
-- crates/woven-protocol/src/model.rs: the message kinds and the delivery classes.
use signalweave.Prelude.{ℕ, Bool, true, false, ◌≡◌, refl, some, List, [], ◌∷◌}
use signalweave.Protocol.Numeric.{NumericEnum, from_variants}

pub data MessageKind : Type 0 where
  unknown hello capabilities authenticate authenticated join_session leave_session subscribe_space
        unsubscribe_space subscription_accepted subscription_rejected entity_entered entity_left
        entity_state reliable_event snapshot_request snapshot space_transition ping pong
        protocol_error inference_requested inference_accepted inference_progress
        inference_stream_chunk inference_completed inference_failed inference_cancelled
        inference_expired tool_call_proposed tool_call_accepted tool_call_rejected
        tool_call_completed :
      MessageKind

abbrev message_kind_value : MessageKind → ℕ
message_kind_value MessageKind.unknown = 0
message_kind_value MessageKind.hello = 1
message_kind_value MessageKind.capabilities = 2
message_kind_value MessageKind.authenticate = 3
message_kind_value MessageKind.authenticated = 4
message_kind_value MessageKind.join_session = 5
message_kind_value MessageKind.leave_session = 6
message_kind_value MessageKind.subscribe_space = 7
message_kind_value MessageKind.unsubscribe_space = 8
message_kind_value MessageKind.subscription_accepted = 9
message_kind_value MessageKind.subscription_rejected = 10
message_kind_value MessageKind.entity_entered = 11
message_kind_value MessageKind.entity_left = 12
message_kind_value MessageKind.entity_state = 13
message_kind_value MessageKind.reliable_event = 14
message_kind_value MessageKind.snapshot_request = 15
message_kind_value MessageKind.snapshot = 16
message_kind_value MessageKind.space_transition = 17
message_kind_value MessageKind.ping = 18
message_kind_value MessageKind.pong = 19
message_kind_value MessageKind.protocol_error = 20
message_kind_value MessageKind.inference_requested = 21
message_kind_value MessageKind.inference_accepted = 22
message_kind_value MessageKind.inference_progress = 23
message_kind_value MessageKind.inference_stream_chunk = 24
message_kind_value MessageKind.inference_completed = 25
message_kind_value MessageKind.inference_failed = 26
message_kind_value MessageKind.inference_cancelled = 27
message_kind_value MessageKind.inference_expired = 28
message_kind_value MessageKind.tool_call_proposed = 29
message_kind_value MessageKind.tool_call_accepted = 30
message_kind_value MessageKind.tool_call_rejected = 31
message_kind_value MessageKind.tool_call_completed = 32

abbrev message_kind_variants : List (ℕ × MessageKind)
message_kind_variants =
    (0, MessageKind.unknown)
    ∷ (1, MessageKind.hello)
    ∷ (2, MessageKind.capabilities)
    ∷ (3, MessageKind.authenticate)
    ∷ (4, MessageKind.authenticated)
    ∷ (5, MessageKind.join_session)
    ∷ (6, MessageKind.leave_session)
    ∷ (7, MessageKind.subscribe_space)
    ∷ (8, MessageKind.unsubscribe_space)
    ∷ (9, MessageKind.subscription_accepted)
    ∷ (10, MessageKind.subscription_rejected)
    ∷ (11, MessageKind.entity_entered)
    ∷ (12, MessageKind.entity_left)
    ∷ (13, MessageKind.entity_state)
    ∷ (14, MessageKind.reliable_event)
    ∷ (15, MessageKind.snapshot_request)
    ∷ (16, MessageKind.snapshot)
    ∷ (17, MessageKind.space_transition)
    ∷ (18, MessageKind.ping)
    ∷ (19, MessageKind.pong)
    ∷ (20, MessageKind.protocol_error)
    ∷ (21, MessageKind.inference_requested)
    ∷ (22, MessageKind.inference_accepted)
    ∷ (23, MessageKind.inference_progress)
    ∷ (24, MessageKind.inference_stream_chunk)
    ∷ (25, MessageKind.inference_completed)
    ∷ (26, MessageKind.inference_failed)
    ∷ (27, MessageKind.inference_cancelled)
    ∷ (28, MessageKind.inference_expired)
    ∷ (29, MessageKind.tool_call_proposed)
    ∷ (30, MessageKind.tool_call_accepted)
    ∷ (31, MessageKind.tool_call_rejected)
    ∷ (32, MessageKind.tool_call_completed)
    ∷ []

pub message_kind_found :
    (e : MessageKind) → from_variants message_kind_variants (message_kind_value e) ≡ some e
unfolding from_variants
message_kind_found MessageKind.unknown = refl
message_kind_found MessageKind.hello = refl
message_kind_found MessageKind.capabilities = refl
message_kind_found MessageKind.authenticate = refl
message_kind_found MessageKind.authenticated = refl
message_kind_found MessageKind.join_session = refl
message_kind_found MessageKind.leave_session = refl
message_kind_found MessageKind.subscribe_space = refl
message_kind_found MessageKind.unsubscribe_space = refl
message_kind_found MessageKind.subscription_accepted = refl
message_kind_found MessageKind.subscription_rejected = refl
message_kind_found MessageKind.entity_entered = refl
message_kind_found MessageKind.entity_left = refl
message_kind_found MessageKind.entity_state = refl
message_kind_found MessageKind.reliable_event = refl
message_kind_found MessageKind.snapshot_request = refl
message_kind_found MessageKind.snapshot = refl
message_kind_found MessageKind.space_transition = refl
message_kind_found MessageKind.ping = refl
message_kind_found MessageKind.pong = refl
message_kind_found MessageKind.protocol_error = refl
message_kind_found MessageKind.inference_requested = refl
message_kind_found MessageKind.inference_accepted = refl
message_kind_found MessageKind.inference_progress = refl
message_kind_found MessageKind.inference_stream_chunk = refl
message_kind_found MessageKind.inference_completed = refl
message_kind_found MessageKind.inference_failed = refl
message_kind_found MessageKind.inference_cancelled = refl
message_kind_found MessageKind.inference_expired = refl
message_kind_found MessageKind.tool_call_proposed = refl
message_kind_found MessageKind.tool_call_accepted = refl
message_kind_found MessageKind.tool_call_rejected = refl
message_kind_found MessageKind.tool_call_completed = refl

instance abbrev pub message_kind_numeric : NumericEnum MessageKind
message_kind_numeric = record {
  number = message_kind_value;
  variants = message_kind_variants;
  variant_found = message_kind_found;
  variants_numbered = (
    refl,
    (
      refl,
      (
        refl,
        (
          refl,
          (
            refl,
            (
              refl,
              (
                refl,
                (
                  refl,
                  (
                    refl,
                    (
                      refl,
                      (
                        refl,
                        (
                          refl,
                          (
                            refl,
                            (
                              refl,
                              (
                                refl,
                                (
                                  refl,
                                  (
                                    refl,
                                    (
                                      refl,
                                      (
                                        refl,
                                        (
                                          refl,
                                          (
                                            refl,
                                            (
                                              refl,
                                              (
                                                refl,
                                                (
                                                  refl,
                                                  (
                                                    refl,
                                                    (
                                                      refl,
                                                      (
                                                        refl,
                                                        (
                                                          refl,
                                                          (
                                                            refl,
                                                            (refl, (refl, (refl, (refl, tt)))),
                                                          ),
                                                        ),
                                                      ),
                                                    ),
                                                  ),
                                                ),
                                              ),
                                            ),
                                          ),
                                        ),
                                      ),
                                    ),
                                  ),
                                ),
                              ),
                            ),
                          ),
                        ),
                      ),
                    ),
                  ),
                ),
              ),
            ),
          ),
        ),
      ),
    ),
  );
}

pub data DeliveryClass : Type 0 where
  unknown reliable_ordered reliable_unordered latest_value unreliable_sequenced best_effort_event :
      DeliveryClass

abbrev delivery_class_value : DeliveryClass → ℕ
delivery_class_value DeliveryClass.unknown = 0
delivery_class_value DeliveryClass.reliable_ordered = 1
delivery_class_value DeliveryClass.reliable_unordered = 2
delivery_class_value DeliveryClass.latest_value = 3
delivery_class_value DeliveryClass.unreliable_sequenced = 4
delivery_class_value DeliveryClass.best_effort_event = 5

abbrev delivery_class_variants : List (ℕ × DeliveryClass)
delivery_class_variants =
    (0, DeliveryClass.unknown)
    ∷ (1, DeliveryClass.reliable_ordered)
    ∷ (2, DeliveryClass.reliable_unordered)
    ∷ (3, DeliveryClass.latest_value)
    ∷ (4, DeliveryClass.unreliable_sequenced)
    ∷ (5, DeliveryClass.best_effort_event)
    ∷ []

pub delivery_class_found :
    (e : DeliveryClass) → from_variants delivery_class_variants (delivery_class_value e) ≡ some e
unfolding from_variants
delivery_class_found DeliveryClass.unknown = refl
delivery_class_found DeliveryClass.reliable_ordered = refl
delivery_class_found DeliveryClass.reliable_unordered = refl
delivery_class_found DeliveryClass.latest_value = refl
delivery_class_found DeliveryClass.unreliable_sequenced = refl
delivery_class_found DeliveryClass.best_effort_event = refl

instance abbrev pub delivery_class_numeric : NumericEnum DeliveryClass
delivery_class_numeric = record {
  number = delivery_class_value;
  variants = delivery_class_variants;
  variant_found = delivery_class_found;
  variants_numbered = (refl, (refl, (refl, (refl, (refl, (refl, tt))))));
}

unfoldable pub is_unreliable : DeliveryClass → Bool
is_unreliable DeliveryClass.unreliable_sequenced = true
is_unreliable DeliveryClass.best_effort_event = true
is_unreliable _ = false
