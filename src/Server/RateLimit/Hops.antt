-- ===== src/Server/RateLimit/Hops.antt =====
-- The client's address behind a proxy.
use openscreentime.Common.{
  ◌≡◌, refl, true, false, Option, none, some, [], ◌∷◌, ◌++◌, ◌==◌, Bool-cases, inl, inr,
}
use openscreentime.Common.Text.{Text}
use openscreentime.Server.RateLimit.{last_hop, client_key}

last_hop-comma :
    (seen forged rest : Text) → last_hop seen (forged ++ b',' ∷ rest) ≡ last_hop [] rest
unfolding last_hop
last_hop-comma seen [] rest = refl
last_hop-comma seen (c ∷ s) rest = elim (Bool-cases (c == b',')) [
  | inl comma ↦ rw comma (last_hop-comma [] s rest)
  | inr other ↦ rw other (last_hop-comma (seen ++ c ∷ []) s rest)
]

-- Behind a trusted proxy the key of a client depends on what the proxy appended after the last
-- comma alone: whatever the client sent before it is as good as nothing, and without a trusted proxy
-- the whole header is.
client_key_unforged :
    (forged appended : Text) (peer : Option Text)
    → (client_key true (some (forged ++ b',' ∷ appended)) peer
        ≡ client_key true (some appended) peer)
      × (client_key false (some appended) peer ≡ client_key false none peer)
unfolding client_key
client_key_unforged forged appended peer = rw (last_hop-comma [] forged appended) (refl, refl)
