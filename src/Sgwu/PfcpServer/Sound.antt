-- ===== src/Sgwu/PfcpServer/Sound.antt =====
-- internal/sgwu/pfcpserver/server.go: the session store over any sequence of messages.
use vectorcore_sgw.Common.{
  ℕ, ◌+◌, ◌^◌, ◌<◌, ◌≡◌, subst, String, List, [], inl, inr, Bool-cases, number_keys, text_keys,
  nat_beq,
}
use vectorcore_sgw.Common.Addr.{Addr}
use vectorcore_sgw.Pfcp.Header.{Header}
use vectorcore_sgw.Sgwu.Session.{Heap, new_store}
use vectorcore_sgw.Sgwu.Session.Reach.{new_store-Inv}
use vectorcore_sgw.Sgwu.PfcpServer.State.{
  ended, PeerRecord, Config, Source, Server, Output, is_allowed, Leaves,
}
use vectorcore_sgw.Sgwu.PfcpServer.Establish.{Draws}
use vectorcore_sgw.Sgwu.PfcpServer.Handlers.{handle}
use vectorcore_sgw.Sgwu.PfcpServer.Known.{IsSound}
use vectorcore_sgw.Sgwu.PfcpServer.PeerSteps.{
  assoc_setup-IsSound, heartbeat-IsSound, release-IsSound,
}
use vectorcore_sgw.Sgwu.PfcpServer.SessionSteps.{
  establishment-IsSound, modification-IsSound, deletion-IsSound,
}

module _ (cfg : Config) (ip_text : Addr → String) where
  handle-IsSound :
      (src : Source) (hdr : Header) (raw : List ℕ) (draws : Draws) (now : ℕ) (s : Server)
      → IsSound s
      → s.store.seid_counter + 1 < 2 ^ 64
      → Leaves IsSound (handle cfg ip_text src hdr raw draws now s)
  unfolding handle
  handle-IsSound src hdr raw draws now s h small = elim (Bool-cases (is_allowed cfg src.ip)) [
    | inr barred ↦ rw barred h
    | inl free ↦ elim (Bool-cases (nat_beq hdr.message_type 5)) [
      | inl it ↦ rw (free, it) (assoc_setup-IsSound cfg ip_text src hdr raw now s h)
      | inr not_5 ↦ elim (Bool-cases (nat_beq hdr.message_type 1)) [
        | inl it ↦ rw (free, not_5, it) (heartbeat-IsSound cfg ip_text src raw now s h)
        | inr not_1 ↦ elim (Bool-cases (nat_beq hdr.message_type 50)) [
          | inl it ↦
              rw (free, not_5, not_1, it)
                (establishment-IsSound cfg ip_text src hdr raw draws s h small)
          | inr not_50 ↦ elim (Bool-cases (nat_beq hdr.message_type 52)) [
            | inl it ↦
                rw (free, not_5, not_1, not_50, it)
                  (modification-IsSound cfg ip_text src hdr raw draws s h)
            | inr not_52 ↦ elim (Bool-cases (nat_beq hdr.message_type 54)) [
              | inl it ↦
                  rw (free, not_5, not_1, not_50, not_52, it)
                    (deletion-IsSound cfg ip_text src hdr raw s h)
              | inr not_54 ↦ elim (Bool-cases (nat_beq hdr.message_type 9)) [
                | inl it ↦
                    rw (free, not_5, not_1, not_50, not_52, not_54, it)
                      (release-IsSound cfg ip_text src raw s h)
                | inr not_9 ↦ rw (free, not_5, not_1, not_50, not_52, not_54, not_9) h
              ]
            ]
          ]
        ]
      ]
    ]
  ]

  -- The states of a server: as New leaves it, or after one more message that the handler has dealt
  -- with. The UP-SEIDs have not run out.
  pub data Serving : Server → Type 0 where
    opened :
        (heap : Heap) (peer_at : ℕ → PeerRecord)
        → Serving (record {
          heap = heap;
          next_session = 0;
          store = new_store;
          peer_at = peer_at;
          next_peer = 0;
          peers = [];
        })
    handled :
        {s t : Server} {out : List Output} (src : Source) (hdr : Header) (raw : List ℕ)
        (draws : Draws) (now : ℕ)
        → Serving s
        → s.store.seid_counter + 1 < 2 ^ 64
        → handle cfg ip_text src hdr raw draws now s ≡ ended (t, out)
        → Serving t

  -- After any sequence of PFCP messages, from any sources, fewer than 2^64 of which establish a session,
  -- and whatever the fast path answers, the two indexes of the session store hold the same sessions,
  -- each under its own CP-SEID and UP-SEID, and no UP-SEID is in use that has not been allocated.
  pub Serving-IsSound : {s : Server} → Serving s → IsSound s
  Serving-IsSound (opened heap peer_at) = record { inv = new_store-Inv heap; known = tt }
  Serving-IsSound (handled {s} src hdr raw draws now before small e) =
      subst (Leaves IsSound) e
        (handle-IsSound src hdr raw draws now s (Serving-IsSound before) small)
