-- ===== src/Sftp/Requests/Existence.antt =====
-- sftp.cc: prefigure_exists() and exists(), which keep what they learn of the paths asked for.
use hbackup.Prelude.{
  ℕ, zero, suc, [], ◌∷◌, ◌++◌, List, Bool, Option, none, some, Bytes, bytes_eq, ◌==◌,
}
use hbackup.Prelude.Dict
use hbackup.Outcome.{Result, ok, fatal, and_then}
use hbackup.Sftp.Transport.{Transport}
use hbackup.Sftp.Requests.{Client, on_link, fresh_id, command, init, path_request}

module _ (T : Transport) where
  -- SftpFilesystem::prefigure_exists(). The assertion holds, as newid() never returns 0.
  unfoldable pub prefigure_exists : Bytes → Client T → Result (Unit {0}) × Client T
  unfolding init fresh_id command path_request
  prefigure_exists path c = and_then (init T c) λ _ c1.
      let (id, c2) = fresh_id T c1 in
      and_then (command T (path_request 17 id path) c2)
        λ _ c3. (ok tt, record c3 { existence_inflight = c3.existence_inflight ++ (id, path) ∷ [] })

  -- The loop of exists() over `existence_inflight`. SSH_FXP_ATTRS is 105.
  unfoldable pub take_inflight : List (ℕ × Bytes) → Client T → Result (Unit {0}) × Client T
  unfolding on_link Dict.insert
  take_inflight [] c = (ok tt, c)
  take_inflight ((id, path) ∷ rest) c = and_then (on_link T (T.await id) c) λ p c1.
      take_inflight rest (record c1 {
        existence = Dict.insert path (p.0 == 105) c1.existence;
        existence_inflight = rest;
      })

  -- What the cache holds is returned and forgotten; else exists() goes on with `again`.
  unfoldable pub or_again :
      Option Bool → Bytes → Result Bool × Client T → Client T → Result Bool × Client T
  unfolding Dict.erase
  or_again (some e) path again c = (ok e, record c { existence = Dict.erase path c.existence })
  or_again none path again c = again

  -- SftpFilesystem::exists(), which calls itself once at most. The fuel bounds its calls.
  unfoldable pub exists : ℕ → Bytes → Client T → Result Bool × Client T
  unfolding init take_inflight prefigure_exists Dict.lookup or_again
  exists zero path c = (fatal, c)
  exists (suc fuel) path c = and_then (init T c) λ _ c1.
      and_then (take_inflight c1.existence_inflight c1) λ _ c2.
        let again = and_then (prefigure_exists path c2) (λ _ c3. exists fuel path c3) in
        or_again (Dict.lookup path c2.existence) path again c2
