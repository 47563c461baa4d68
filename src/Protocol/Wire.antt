-- ===== src/Protocol/Wire.antt =====
-- crates/woven-protocol/schemas/woven_v1.fbs: the union of the control tables and the root table.
use signalweave.Prelude.{ℕ, ◌≡◌, refl, Option, some, List, [], ◌∷◌}
use signalweave.Protocol.Numeric.{NumericEnum, from_variants}
use signalweave.Protocol.Tables.{
  HelloPayload, CapabilitiesPayload, AuthenticatePayload, AuthenticatedPayload, JoinSessionPayload,
  LeaveSessionPayload, SubscribeSpacePayload, UnsubscribeSpacePayload, SubscriptionAcceptedPayload,
  SubscriptionRejectedPayload, EntityEnteredPayload, EntityLeftPayload, SnapshotRequestPayload,
  SpaceTransitionPayload, PingPayload, PongPayload, ProtocolErrorPayload, InferenceRequestedPayload,
  InferenceAcceptedPayload, InferenceProgressPayload, InferenceStreamChunkPayload,
  InferenceCompletedPayload, InferenceFailedPayload, InferenceCancelledPayload,
  InferenceExpiredPayload, ToolCallProposedPayload, ToolCallAcceptedPayload,
  ToolCallRejectedPayload, ToolCallCompletedPayload,
}

pub data ControlType : Type 0 where
  no_payload hello_payload capabilities_payload authenticate_payload authenticated_payload
        join_session_payload leave_session_payload subscribe_space_payload unsubscribe_space_payload
        subscription_accepted_payload subscription_rejected_payload entity_entered_payload
        entity_left_payload snapshot_request_payload space_transition_payload ping_payload
        pong_payload protocol_error_payload inference_requested_payload inference_accepted_payload
        inference_progress_payload inference_stream_chunk_payload inference_completed_payload
        inference_failed_payload inference_cancelled_payload inference_expired_payload
        tool_call_proposed_payload tool_call_accepted_payload tool_call_rejected_payload
        tool_call_completed_payload :
      ControlType

abbrev control_type_value : ControlType → ℕ
control_type_value ControlType.no_payload = 0
control_type_value ControlType.hello_payload = 1
control_type_value ControlType.capabilities_payload = 2
control_type_value ControlType.authenticate_payload = 3
control_type_value ControlType.authenticated_payload = 4
control_type_value ControlType.join_session_payload = 5
control_type_value ControlType.leave_session_payload = 6
control_type_value ControlType.subscribe_space_payload = 7
control_type_value ControlType.unsubscribe_space_payload = 8
control_type_value ControlType.subscription_accepted_payload = 9
control_type_value ControlType.subscription_rejected_payload = 10
control_type_value ControlType.entity_entered_payload = 11
control_type_value ControlType.entity_left_payload = 12
control_type_value ControlType.snapshot_request_payload = 13
control_type_value ControlType.space_transition_payload = 14
control_type_value ControlType.ping_payload = 15
control_type_value ControlType.pong_payload = 16
control_type_value ControlType.protocol_error_payload = 17
control_type_value ControlType.inference_requested_payload = 18
control_type_value ControlType.inference_accepted_payload = 19
control_type_value ControlType.inference_progress_payload = 20
control_type_value ControlType.inference_stream_chunk_payload = 21
control_type_value ControlType.inference_completed_payload = 22
control_type_value ControlType.inference_failed_payload = 23
control_type_value ControlType.inference_cancelled_payload = 24
control_type_value ControlType.inference_expired_payload = 25
control_type_value ControlType.tool_call_proposed_payload = 26
control_type_value ControlType.tool_call_accepted_payload = 27
control_type_value ControlType.tool_call_rejected_payload = 28
control_type_value ControlType.tool_call_completed_payload = 29

abbrev control_type_variants : List (ℕ × ControlType)
control_type_variants =
    (0, ControlType.no_payload)
    ∷ (1, ControlType.hello_payload)
    ∷ (2, ControlType.capabilities_payload)
    ∷ (3, ControlType.authenticate_payload)
    ∷ (4, ControlType.authenticated_payload)
    ∷ (5, ControlType.join_session_payload)
    ∷ (6, ControlType.leave_session_payload)
    ∷ (7, ControlType.subscribe_space_payload)
    ∷ (8, ControlType.unsubscribe_space_payload)
    ∷ (9, ControlType.subscription_accepted_payload)
    ∷ (10, ControlType.subscription_rejected_payload)
    ∷ (11, ControlType.entity_entered_payload)
    ∷ (12, ControlType.entity_left_payload)
    ∷ (13, ControlType.snapshot_request_payload)
    ∷ (14, ControlType.space_transition_payload)
    ∷ (15, ControlType.ping_payload)
    ∷ (16, ControlType.pong_payload)
    ∷ (17, ControlType.protocol_error_payload)
    ∷ (18, ControlType.inference_requested_payload)
    ∷ (19, ControlType.inference_accepted_payload)
    ∷ (20, ControlType.inference_progress_payload)
    ∷ (21, ControlType.inference_stream_chunk_payload)
    ∷ (22, ControlType.inference_completed_payload)
    ∷ (23, ControlType.inference_failed_payload)
    ∷ (24, ControlType.inference_cancelled_payload)
    ∷ (25, ControlType.inference_expired_payload)
    ∷ (26, ControlType.tool_call_proposed_payload)
    ∷ (27, ControlType.tool_call_accepted_payload)
    ∷ (28, ControlType.tool_call_rejected_payload)
    ∷ (29, ControlType.tool_call_completed_payload)
    ∷ []

pub control_type_found :
    (e : ControlType) → from_variants control_type_variants (control_type_value e) ≡ some e
unfolding from_variants
control_type_found ControlType.no_payload = refl
control_type_found ControlType.hello_payload = refl
control_type_found ControlType.capabilities_payload = refl
control_type_found ControlType.authenticate_payload = refl
control_type_found ControlType.authenticated_payload = refl
control_type_found ControlType.join_session_payload = refl
control_type_found ControlType.leave_session_payload = refl
control_type_found ControlType.subscribe_space_payload = refl
control_type_found ControlType.unsubscribe_space_payload = refl
control_type_found ControlType.subscription_accepted_payload = refl
control_type_found ControlType.subscription_rejected_payload = refl
control_type_found ControlType.entity_entered_payload = refl
control_type_found ControlType.entity_left_payload = refl
control_type_found ControlType.snapshot_request_payload = refl
control_type_found ControlType.space_transition_payload = refl
control_type_found ControlType.ping_payload = refl
control_type_found ControlType.pong_payload = refl
control_type_found ControlType.protocol_error_payload = refl
control_type_found ControlType.inference_requested_payload = refl
control_type_found ControlType.inference_accepted_payload = refl
control_type_found ControlType.inference_progress_payload = refl
control_type_found ControlType.inference_stream_chunk_payload = refl
control_type_found ControlType.inference_completed_payload = refl
control_type_found ControlType.inference_failed_payload = refl
control_type_found ControlType.inference_cancelled_payload = refl
control_type_found ControlType.inference_expired_payload = refl
control_type_found ControlType.tool_call_proposed_payload = refl
control_type_found ControlType.tool_call_accepted_payload = refl
control_type_found ControlType.tool_call_rejected_payload = refl
control_type_found ControlType.tool_call_completed_payload = refl

instance abbrev pub control_type_numeric : NumericEnum ControlType
control_type_numeric = record {
  number = control_type_value;
  variants = control_type_variants;
  variant_found = control_type_found;
  variants_numbered = (
    refl,
    (
      refl,
      (
        refl,
        (
          refl,
          (
            refl,
            (
              refl,
              (
                refl,
                (
                  refl,
                  (
                    refl,
                    (
                      refl,
                      (
                        refl,
                        (
                          refl,
                          (
                            refl,
                            (
                              refl,
                              (
                                refl,
                                (
                                  refl,
                                  (
                                    refl,
                                    (
                                      refl,
                                      (
                                        refl,
                                        (
                                          refl,
                                          (
                                            refl,
                                            (
                                              refl,
                                              (
                                                refl,
                                                (
                                                  refl,
                                                  (
                                                    refl,
                                                    (refl, (refl, (refl, (refl, (refl, tt))))),
                                                  ),
                                                ),
                                              ),
                                            ),
                                          ),
                                        ),
                                      ),
                                    ),
                                  ),
                                ),
                              ),
                            ),
                          ),
                        ),
                      ),
                    ),
                  ),
                ),
              ),
            ),
          ),
        ),
      ),
    ),
  );
}

-- The table of a union. The verifier has checked that it is of the type that `control_type` names;
-- of a type that the schema does not know it checks nothing.
pub data ControlTable : Type 0 where
  hello : HelloPayload → ControlTable
  capabilities : CapabilitiesPayload → ControlTable
  authenticate : AuthenticatePayload → ControlTable
  authenticated : AuthenticatedPayload → ControlTable
  join_session : JoinSessionPayload → ControlTable
  leave_session : LeaveSessionPayload → ControlTable
  subscribe_space : SubscribeSpacePayload → ControlTable
  unsubscribe_space : UnsubscribeSpacePayload → ControlTable
  subscription_accepted : SubscriptionAcceptedPayload → ControlTable
  subscription_rejected : SubscriptionRejectedPayload → ControlTable
  entity_entered : EntityEnteredPayload → ControlTable
  entity_left : EntityLeftPayload → ControlTable
  snapshot_request : SnapshotRequestPayload → ControlTable
  space_transition : SpaceTransitionPayload → ControlTable
  ping : PingPayload → ControlTable
  pong : PongPayload → ControlTable
  protocol_error : ProtocolErrorPayload → ControlTable
  inference_requested : InferenceRequestedPayload → ControlTable
  inference_accepted : InferenceAcceptedPayload → ControlTable
  inference_progress : InferenceProgressPayload → ControlTable
  inference_stream_chunk : InferenceStreamChunkPayload → ControlTable
  inference_completed : InferenceCompletedPayload → ControlTable
  inference_failed : InferenceFailedPayload → ControlTable
  inference_cancelled : InferenceCancelledPayload → ControlTable
  inference_expired : InferenceExpiredPayload → ControlTable
  tool_call_proposed : ToolCallProposedPayload → ControlTable
  tool_call_accepted : ToolCallAcceptedPayload → ControlTable
  tool_call_rejected : ToolCallRejectedPayload → ControlTable
  tool_call_completed : ToolCallCompletedPayload → ControlTable
  unknown_table : ControlTable

pub record WireEnvelope : Type 0 where
  pub protocol_version : ℕ
  pub message_kind : ℕ
  pub delivery_class : ℕ
  pub namespace_id : ℕ
  pub session_id : ℕ
  pub space_id : ℕ
  pub entity_id : ℕ
  pub space_epoch : ℕ
  pub server_tick : ℕ
  pub sender_sequence : ℕ
  pub correlation_id : ℕ
  pub payload_type_id : ℕ
  pub payload : Option (List ℕ)
  pub control_type : ℕ
  pub control : Option ControlTable
  pub channel_id : ℕ
