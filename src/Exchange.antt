-- ===== src/Exchange.antt =====
-- What one service publishes and another consumes: publisher.go, consumer.go and request_response.go
-- together.
pub mod Events
pub mod Serving
pub mod Services
pub mod Requests
use go_messaging_nats.Nats.{Message}
use go_messaging_nats.Publisher.{OutMessage}

-- A NATS server hands on the subject, the header and the payload of a message as they are.
abbrev pub delivered : OutMessage → Message
delivered out = record {
  subject = out.subject;
  reply = "";
  header = out.header;
  payload = out.payload;
}
