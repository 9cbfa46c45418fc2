-- ===== src/Sgwu/PfcpServer/Outcome.antt =====
-- internal/sgwu/pfcpserver/server.go: what a Session Establishment Request can come to.
use vectorcore_sgw.Common.{ℕ, ◌<◌, ◌≡◌, ◌≢◌, refl, none, some, List, [], ◌∷◌, ◌++◌, number_keys}
use vectorcore_sgw.Common.Maps.{lookup}
use vectorcore_sgw.Pfcp.Ie.{Element}
use vectorcore_sgw.Pfcp.Values.{new_fseid}
use vectorcore_sgw.Sgwu.Session.{Session}
use vectorcore_sgw.Sgwu.PfcpServer.State.{
  Ending, ended, crashed, unended, Config, Source, Server, Output,
}
use vectorcore_sgw.Sgwu.PfcpServer.Answers.{source_key, tracked}
use vectorcore_sgw.Sgwu.PfcpServer.Establishment.{refuse_establishment, accept_establishment}

-- The sessions of the store and those behind the references made before are as they were.
pub record SameSessions (s t : Server) : Type 0 where
  pub by_cp : t.store.by_cp_seid ≡ s.store.by_cp_seid
  pub by_up : t.store.by_up_seid ≡ s.store.by_up_seid
  pub old_sessions : (r : ℕ) → r < s.next_session → t.heap r ≡ s.heap r

-- The new session `sess` is found under both of its identifiers, and nothing else has changed.
pub record HasNew (sess : Session) (s t : Server) : Type 0 where
  pub new_cp : lookup sess.cp_seid s.store.by_cp_seid ≡ none
  pub found_cp : lookup sess.cp_seid t.store.by_cp_seid ≡ some s.next_session
  pub found_up : lookup sess.up_seid t.store.by_up_seid ≡ some s.next_session
  pub made : t.heap s.next_session ≡ sess
  pub other_cp :
      (k r : ℕ) → lookup k s.store.by_cp_seid ≡ some r → lookup k t.store.by_cp_seid ≡ some r
  pub other_up :
      (k r : ℕ) → lookup k s.store.by_up_seid ≡ some r → lookup k t.store.by_up_seid ≡ some r
  pub old_sessions : (r : ℕ) → r < s.next_session → t.heap r ≡ s.heap r

-- What a session and its Created PDR elements are to be.
abbrev pub Asked : Type 1
Asked = Session → List Element → Type 0

module _ (cfg : Config) where
  -- The answer is a refusal with a cause other than acceptance, and nothing has changed.
  pub record RefusedWith (hdr_seq cause : ℕ) (s t : Server) (out : List Output) : Type 0 where
    pub not_accepted : ◌≢◌ {A = ℕ} cause 1
    pub answered : out ≡ refuse_establishment cfg hdr_seq cause ∷ []
    pub unchanged : SameSessions s t

  -- The answer is an acceptance under the CP-SEID, after the new peers, and the session is there.
  pub record Accepted (seq : ℕ) (sess : Session) (created : List Element) (s t : Server)
      (out : List Output) : Type 0 where
    pub up_fseid : Element
    pub fseid_made : new_fseid sess.up_seid cfg.local_ip ≡ some up_fseid
    pub answered :
        out
        ≡ tracked cfg sess.fars ++ (accept_establishment cfg sess.cp_seid seq up_fseid created ∷ [])
    pub stored : HasNew sess s t

  -- What one request can come to: a refusal, an acceptance of a session and of Created PDR elements that
  -- have been asked for, or for an excuse neither.
  pub data Outcome (asked : Session → List Element → Type 0) (excuse : Type 0) (src : Source)
      (hdr_seq up : ℕ) (s : Server) : Ending (Server × List Output) → Type 0 where
    refusal :
        {t : Server} {out : List Output} (cause : ℕ)
        → RefusedWith hdr_seq cause s t out
        → Outcome asked excuse src hdr_seq up s (ended (t, out))
    acceptance :
        {t : Server} {out : List Output} (seq : ℕ) (sess : Session) (created : List Element)
        → asked sess created
        → sess.cp_node_key ≡ source_key src
        → sess.up_seid ≡ up
        → Accepted seq sess created s t out
        → Outcome asked excuse src hdr_seq up s (ended (t, out))
    crash : excuse → Outcome asked excuse src hdr_seq up s crashed
    wait : excuse → Outcome asked excuse src hdr_seq up s unended

  pub refused_same :
      (asked : Asked) (src : Source) (hdr_seq up cause : ℕ) (s : Server)
      → ◌≢◌ {A = ℕ} cause 1
      → Outcome asked Unit src hdr_seq up s (ended (s, refuse_establishment cfg hdr_seq cause ∷ []))
  refused_same asked src hdr_seq up cause s ne = refusal cause (record {
    not_accepted = ne;
    answered = refl;
    unchanged = record { by_cp = refl; by_up = refl; old_sessions = λ r h. refl };
  })
