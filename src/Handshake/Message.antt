-- ===== src/Handshake/Message.antt =====
-- What a signature of handshake.rs covers: the binding and the ephemeral key, each as a whole.
use rivet_link.Prelude.{◌^◌, ◌<◌, ◌≡◌, ap, length, drop, ◌++◌}
use rivet_link.Prelude.Bytes.{append_split, to_be_bytes_split}
use rivet_link.Sealed.Channel.{Bytes}
use rivet_link.Handshake.{signature_domain, signature_message}

pub signature_message-injective :
    (a b e f : Bytes)
    → length a < 2 ^ 64
    → length b < 2 ^ 64
    → signature_message a e ≡ signature_message b f
    → (a ≡ b) × (e ≡ f)
unfolding signature_message
signature_message-injective a b e f ha hb same =
    let (long, rest) =
      to_be_bytes_split 8 (length a) (length b) (a ++ e) (b ++ f) ha hb
        (ap (drop (length signature_domain)) same) in
    append_split a b e f long rest
