-- ===== src/Tests/Probing.antt =====
-- A probe session from its ticket to its first answer.
use evgenium_network_linux.Prelude.{
  nat_eq, bytes_eq, string_eq, ℕ, some, true, [], get, length, refl, suc, zero, ◌++◌, ◌<◌, ◌∷◌, ◌≡◌,
}
use evgenium_network_linux.Probes.Packet.{
  Bytes, Sessions, Session, Reply, issue, handle, fresh_case, is_signed, magic, reply_magic,
  session_of,
}
use evgenium_network_linux.Probes.Packet.Counts.{Bounded, Reached-Bounded, handled, issued, start}
use evgenium_network_linux.Probes.Packet.Answers.{handle-answers}

abbrev zeros : ℕ → Bytes
zeros zero = []
zeros (suc n) = 0 ∷ zeros n

abbrev null_mac : Bytes → Bytes → Bytes
null_mac key message = zeros 32

-- packet 0 of the session whose id is all zero, of 128 bytes
abbrev packet : Bytes
packet = magic ++ zeros 124

abbrev one_session : Sessions
one_session = (issue 1 null_mac (7 ∷ []) "10.77.0.9" 10 (zeros 16) (zeros 32) []).1

abbrev the_session : Session
the_session = record {
  key = zeros 32;
  owner = 7 ∷ [];
  peer = "10.77.0.9";
  expires = 130;
  cases = fresh_case ∷ fresh_case ∷ fresh_case ∷ fresh_case ∷ fresh_case ∷ fresh_case ∷ [];
}

abbrev the_reply : Reply
the_reply = record { session = zeros 16; case_index = 0; payload = reply_magic ++ zeros 124 }

abbrev the_sessions : Sessions
the_sessions = (zeros 16, the_session) ∷ []

handle-answers_example :
    (s : Session) × (get (session_of packet) the_sessions ≡ some s)
    × (11 < s.expires)
    × (s.peer ≡ "10.77.0.9")
    × (is_signed 1 null_mac s.key packet ≡ true)
    × (the_reply.session ≡ session_of packet)
    × (length the_reply.payload ≡ length packet)
unfolding handle
handle-answers_example =
    handle-answers 1 null_mac (λ key message. refl) packet "10.77.0.9" 11 the_sessions
      (handle 1 null_mac packet "10.77.0.9" 11 the_sessions).1 the_reply refl

Reached-Bounded_example : Bounded (handle 1 null_mac packet "10.77.0.9" 11 one_session).1
Reached-Bounded_example =
    Reached-Bounded 1 null_mac (handle 1 null_mac packet "10.77.0.9" 11 one_session).1 (
      handled packet "10.77.0.9" 11 one_session
        (issued (7 ∷ []) "10.77.0.9" 10 (zeros 16) (zeros 32) [] start))
