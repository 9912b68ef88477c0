-- ===== src/ErrorCode.antt =====
-- The machine-readable error codes and the exceptions that carry them
-- (src/common/exceptions/error-codes.ts, src/common/exceptions/business.exception.ts).
use wenyouzhan.Common.{ℕ, ◌==◌, if◌then◌else◌}

pub data ErrorCode : Type 0 where
  success validation_error bad_request optimistic_lock_conflict invalid_dice_notation : ErrorCode
  dice_roll_limit_exceeded invalid_direct_message invalid_sticker invalid_cursor : ErrorCode
  invalid_wenyou_amount unsupported_markdown_format unauthorized token_expired : ErrorCode
  token_invalid token_revoked token_theft_detected account_locked account_deactivated : ErrorCode
  account_suspended account_banned login_failed code_expired code_invalid : ErrorCode
  code_attempts_exceeded no_code_record session_not_found wrong_old_password : ErrorCode
  admin_session_required admin_session_expired admin_challenge_invalid appeal_token_invalid :
      ErrorCode
  forbidden not_thread_owner not_collaborator not_player cannot_moderate_owner : ErrorCode
  direct_message_blocked direct_message_not_allowed tip_not_allowed admin_required : ErrorCode
  cannot_moderate_admin admin_step_up_required not_found user_not_found thread_not_found : ErrorCode
  post_not_found subthread_not_found draft_not_found tag_not_found subscription_not_found :
      ErrorCode
  invite_invalid media_not_found report_not_found direct_conversation_not_found : ErrorCode
  direct_message_not_found sticker_not_found thread_category_not_found moment_not_found : ErrorCode
  moderation_case_not_found moderation_decision_not_found moderation_appeal_not_found : ErrorCode
  media_object_missing conflict email_already_registered username_taken already_member : ErrorCode
  already_subscribed tag_already_exists direct_message_request_pending : ErrorCode
  direct_message_request_declined direct_message_recall_expired : ErrorCode
  direct_message_media_attached sticker_limit_reached sticker_collection_version_conflict :
      ErrorCode
  idempotency_key_reused insufficient_wenyou report_already_pending report_already_handled :
      ErrorCode
  content_state_conflict sanction_state_conflict thread_category_already_exists : ErrorCode
  taxonomy_state_conflict moderation_case_already_closed appeal_already_submitted : ErrorCode
  appeal_window_closed admin_invite_conflict registration_paused content_writes_paused : ErrorCode
  rate_limited internal_error : ErrorCode

-- The number that the client reads.
unfoldable pub value : ErrorCode → ℕ
value success = 0
value validation_error = 40000
value bad_request = 40001
value optimistic_lock_conflict = 40002
value invalid_dice_notation = 40003
value dice_roll_limit_exceeded = 40004
value invalid_direct_message = 40005
value invalid_sticker = 40006
value invalid_cursor = 40007
value invalid_wenyou_amount = 40008
value unsupported_markdown_format = 40009
value unauthorized = 40100
value token_expired = 40101
value token_invalid = 40102
value token_revoked = 40103
value token_theft_detected = 40104
value account_locked = 40105
value account_deactivated = 40106
value account_suspended = 40108
value account_banned = 40109
value login_failed = 40110
value code_expired = 40111
value code_invalid = 40112
value code_attempts_exceeded = 40113
value no_code_record = 40114
value session_not_found = 40115
value wrong_old_password = 40116
value admin_session_required = 40117
value admin_session_expired = 40118
value admin_challenge_invalid = 40119
value appeal_token_invalid = 40120
value forbidden = 40300
value not_thread_owner = 40301
value not_collaborator = 40302
value not_player = 40303
value cannot_moderate_owner = 40304
value direct_message_blocked = 40305
value direct_message_not_allowed = 40306
value tip_not_allowed = 40307
value admin_required = 40308
value cannot_moderate_admin = 40309
value admin_step_up_required = 40310
value not_found = 40400
value user_not_found = 40401
value thread_not_found = 40402
value post_not_found = 40403
value subthread_not_found = 40404
value draft_not_found = 40405
value tag_not_found = 40406
value subscription_not_found = 40407
value invite_invalid = 40408
value media_not_found = 40409
value report_not_found = 40410
value direct_conversation_not_found = 40411
value direct_message_not_found = 40412
value sticker_not_found = 40413
value thread_category_not_found = 40414
value moment_not_found = 40415
value moderation_case_not_found = 40416
value moderation_decision_not_found = 40417
value moderation_appeal_not_found = 40418
value media_object_missing = 40419
value conflict = 40900
value email_already_registered = 40901
value username_taken = 40902
value already_member = 40903
value already_subscribed = 40904
value tag_already_exists = 40905
value direct_message_request_pending = 40906
value direct_message_request_declined = 40907
value direct_message_recall_expired = 40908
value direct_message_media_attached = 40909
value sticker_limit_reached = 40910
value sticker_collection_version_conflict = 40911
value idempotency_key_reused = 40912
value insufficient_wenyou = 40913
value report_already_pending = 40914
value report_already_handled = 40915
value content_state_conflict = 40916
value sanction_state_conflict = 40917
value thread_category_already_exists = 40918
value taxonomy_state_conflict = 40919
value moderation_case_already_closed = 40920
value appeal_already_submitted = 40921
value appeal_window_closed = 40922
value admin_invite_conflict = 40923
value registration_paused = 40924
value content_writes_paused = 40925
value rate_limited = 42900
value internal_error = 50000

-- `httpStatusToCode`: the default code of a status.
unfoldable pub http_status_to_code : ℕ → ℕ
unfolding value
http_status_to_code status =
    if status == 400
    then value bad_request
    else if status == 401
    then value unauthorized
    else if status == 403
    then value forbidden
    else if status == 404
    then value not_found
    else if status == 409
    then value conflict
    else if status == 429
    then value rate_limited
    else if status == 500
    then value internal_error
    else status
