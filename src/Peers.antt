-- ===== src/Peers.antt =====
-- `github.com/libp2p/go-libp2p/core/peer`: peer IDs and their text form.
--
-- The package is not part of the repository. A peer ID is only compared, printed and decoded, so
-- an ID is a number, and `PeerCodec` holds the two functions that the source calls with the
-- documented law that relates them.
use p2ptogether.Prelude.{ℕ, ◌≡◌, Option, some}
use p2ptogether.Names.{Text}

abbrev pub PeerId : Type 0
PeerId = ℕ

-- `encode` is `peer.ID.String`, `decode` is `peer.Decode`, `none` its error.
pub record PeerCodec : Type 0 where
  pub encode : PeerId → Text
  pub decode : Text → Option PeerId
  pub decode-encode : (p : PeerId) → decode (encode p) ≡ some p

abbrev pub encode : ⦃codec : PeerCodec⦄ → PeerId → Text
encode ⦃codec⦄ = codec.encode

abbrev pub decode : ⦃codec : PeerCodec⦄ → Text → Option PeerId
decode ⦃codec⦄ = codec.decode
