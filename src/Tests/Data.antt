-- ===== src/Tests/Data.antt =====
-- Messages for the tests.
use firehose.Base.{ℕ, [], ◌∷◌}
use firehose.Api.{
  RequestPublish, ResponsePublish, RequestPrepare, ResponsePrepare, RequestAccept,
  RequestUpdateSubscription, blank_request_publish, blank_request_prepare, blank_response_prepare,
  blank_request_accept, blank_request_update_subscription, blank_request_header,
  blank_response_publish, blank_response_header,
}

-- A publication to topic 3.
abbrev pub publication : ℕ → RequestPublish
publication global_id = record blank_request_publish {
  header = record blank_request_header { sender_id = 11; sender_request_id = 7; baggage = 66 ∷ [] };
  global_id = global_id;
  topic_id = 3;
  timestamp = 500;
  message = 104 ∷ 105 ∷ [];
}

abbrev pub preparation : ℕ → RequestPrepare
preparation global_id = record blank_request_prepare {
  header = record blank_request_header { sender_id = 12; sender_request_id = 8 };
  global_id = global_id;
  topic_id = 3;
  timestamp = 500;
  message = 104 ∷ 105 ∷ [];
}

abbrev pub preparation_ack : ResponsePrepare
preparation_ack = record blank_response_prepare {
  header = record blank_response_header { sender_request_id = 8; message = 111 ∷ [] };
  global_id = 5;
  topic_id = 3;
}

abbrev pub publication_ack : ResponsePublish
publication_ack = record blank_response_publish {
  header = record blank_response_header { sender_request_id = 9 };
  global_id = 5;
  topic_id = 3;
}

abbrev pub acceptance : RequestAccept
acceptance = record blank_request_accept { global_id = 5; topic_id = 3; message = 104 ∷ [] }

-- Client 21 on topic 3.
abbrev pub subscription : ℕ → RequestUpdateSubscription
subscription action = record blank_request_update_subscription {
  header = record blank_request_header { sender_id = 21 };
  topic_id = 3;
  action = action;
}
