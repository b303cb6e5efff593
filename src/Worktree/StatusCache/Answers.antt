-- ===== src/Worktree/StatusCache/Answers.antt =====
-- extension/src/views/worktreeLogic.ts: what a status read returns once its load has settled.
use gitglasses.Worktree.StatusCache.{
  Loaded, lookup, Job, stored, Stored, pump, StatusCache, finish, settle_job, is_current,
  load_settled, get, loaded, load_failed,
}
use gitglasses.Base.{get_elem?, ==_refl, text_eq_refl, Text, ℕ, refl, some, ◌≡◌}
use gitglasses.Base.Maps.{lookup-set_key}

-- Reading under the key and in the generation of an entry that is there changes nothing.
get-current :
    (path key : Text) (c : StatusCache) (e : Stored)
    → lookup path c.entries ≡ some e
    → e.key ≡ key
    → e.generation ≡ c.generation
    → get path key c ≡ (c, some e)
unfolding get is_current
get-current path key c e h k g = rw (h, k, g, text_eq_refl key, ==_refl c.generation) refl

-- Once the load of a request of the present generation has settled, whatever it brought, reading under
-- the request's key returns the new entry and starts no load; a failed load keeps the status that was
-- known before.
pub load_settled-get :
    (i : ℕ) (job : Job) (result : Loaded) (c : StatusCache)
    → get_elem? c.loads i ≡ some job
    → job.generation ≡ c.generation
    → let c' = load_settled i result c in
      get job.path job.key c' ≡ (c', some (stored job result (lookup job.path c.entries)))
unfolding load_settled settle_job finish pump stored
load_settled-get i job (loaded status) c h g =
    rw h (get-current job.path job.key _ _ (lookup-set_key job.path _ c.entries) refl g)
load_settled-get i job (load_failed message) c h g =
    rw h (get-current job.path job.key _ _ (lookup-set_key job.path _ c.entries) refl g)
