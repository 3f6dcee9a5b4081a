-- ===== src/Stratum/Client/Buffer.antt =====
-- The buffer of notifications in stratum/client.go.
use xmrig2xdag.Common.{◌≡◌, ◌≢◌, ◌≤◌, [], ◌∷◌, ◌++◌, length}
use xmrig2xdag.Stratum.Json.{Json}
use xmrig2xdag.Stratum.Client.{ClientCodec, ResponseHeader, notification, killed}

-- What becomes of the buffer and of the pending calls, for each way in which handleNotification ends.
abbrev pub Buffered : {E : Type 0} → ClientCodec → ClientCodec × ResponseHeader E → Type 0
Buffered {E} c h =
    (length (h.0.notifications) ≤ 10)
    × (h.1 ≡ killed → length (c.notifications) ≡ 10)
    × (h.1 ≡ notification → h.0.notifications ≡ c.notifications ++ h.0.notif ∷ [])
    × (h.1 ≢ notification → h.0.notifications ≡ c.notifications)
    × (h.0.pending ≡ c.pending)
