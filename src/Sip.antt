-- ===== src/Sip.antt =====
-- internal/sip/sip.go, in parts: the RTP state of an endpoint and what it sends and receives
-- (Rtp, Receive), the addresses in a session description (Sdp), the server's handlers (Server), and
-- how a socket learns its public address (Stun).
pub mod Rtp
pub mod Receive
pub mod Sdp
pub mod Server
pub mod Stun
