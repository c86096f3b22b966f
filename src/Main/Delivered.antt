-- ===== src/Main/Delivered.antt =====
-- What the loop of billing posts to Vector, tick by tick.
use mathlib.Core.List.{append_assoc, append-nil}
use mathlib.Core.Option.{some-injective}
use xray_exporter.Common.{
  ◌≡◌, refl, sym, ap, subst, ◌∙◌, inl, inr, false, Option, none, some, List, [], ◌∷◌, ◌++◌,
}
use xray_exporter.GoMap.{GoMap}
use xray_exporter.Snapshot.Types.{RawCounter, Identity, Snapshot}
use xray_exporter.Snapshot.Normalize.{is_blank}
use xray_exporter.Snapshot.Disk.{Files, StoreError}
use xray_exporter.Snapshot.Store.{Store, save_items, save}
use xray_exporter.Snapshot.Store.Persist.{persist_atomic}
use xray_exporter.Snapshot.Service.{
  Service, World, Collected, collected, collect_failed, collect, fetch_identities,
}
use xray_exporter.Snapshot.Service.Arrived.{stored_by, collect-store}
use xray_exporter.Snapshot.Service.Reported.{value_of, saved_report, reported, collect-reported}
use xray_exporter.Snapshot.Push.{Post, push}
use xray_exporter.Snapshot.Push.Posting.{CanPost, post_of, push-CanPost, push-IsQuiet}
use xray_exporter.Main.{
  Tick, Billing, Loop, source_at, at_tick, pushed, collect_and_push, run_snapshot_loop,
}
use xray_exporter.Main.Ticks.{arrived_at, tick_snapshot}

-- The snapshot of a tick of the loop.
abbrev pub snapshot_at : Tick → Loop → List RawCounter × GoMap Identity → Snapshot
snapshot_at t l both = tick_snapshot l.service.node_id l.service.env t both

-- What saving it ends in.
abbrev pub saved_at :
    Tick → Loop → Store → List RawCounter × GoMap Identity → Option StoreError × Files
saved_at t l store both =
    (save t.world.sort_snapshots t.world.codec t.world.calls store l.files (snapshot_at t l both)).1

-- A tick has something to post: the counters and the identities have arrived, the snapshot of them
-- is saved without an error, and it can be posted.
pub record IsDue (b : Billing) (t : Tick) (l : Loop) (store : Store) : Type 0 where
  pub both : List RawCounter × GoMap Identity
  pub have_arrived : arrived_at b l.service.timeout t ≡ some both
  pub is_saved : (saved_at t l store both).0 ≡ none
  pub can_post : CanPost t.vector b.pusher (snapshot_at t l both)

-- The store's file holds the items with the snapshot of a tick.
abbrev pub IsOnDisk : Tick → Loop → Store → List RawCounter × GoMap Identity → Files → Type 0
IsOnDisk t l store both files =
    is_blank store.path ≡ false
    → files.target
      ≡ some (
          t.world.codec.encode
            (save_items t.world.sort_snapshots store (snapshot_at t l both)).items)

-- What a tick posts, and the files that it leaves.
pub data TickPosts (b : Billing) (t : Tick) (l : Loop) (store : Store) (files : Files)
    : List Post → Type 0 where
  quiet : ¬ IsDue b t l store → TickPosts b t l store files []
  posted :
      (d : IsDue b t l store)
      → IsOnDisk t l store d.both files
      → TickPosts b t l store files (post_of d.can_post.pusher d.can_post.body ∷ [])

-- The posts of the ticks, one after the other.
pub data RunPosts (b : Billing) : List Tick → Loop → List Post → Type 0 where
  done : (l : Loop) → RunPosts b [] l []
  next :
      (t : Tick) (ticks : List Tick) (l : Loop) (store : Store) (now later : List Post)
      → l.service.store ≡ some store
      → TickPosts b t l store (collect_and_push b t l).files now
      → RunPosts b ticks (collect_and_push b t l) later
      → RunPosts b (t ∷ ticks) l (now ++ later)

-- The posts for what a collection returns.
posts_for : Billing → Tick → Option Snapshot → List Post
posts_for b t none = []
posts_for b t (some value) = (push t.vector b.pusher value).0

pushed-posts_for :
    (b : Billing) (t : Tick) (o : Collected) → pushed b t o ≡ posts_for b t (value_of o)
unfolding pushed posts_for
pushed-posts_for b t (collected value) = refl
pushed-posts_for b t (collect_failed e) = refl

module _ (b : Billing) (t : Tick) (l : Loop) (store : Store) where
  abbrev here : World
  here = record t.world { files = l.files }

  on_disk :
      (both : List RawCounter × GoMap Identity)
      → (saved_at t l store both).0 ≡ none
      → IsOnDisk t l store both (saved_at t l store both).1
  unfolding save save_items
  on_disk both saved named =
      (persist_atomic t.world.codec t.world.calls
          (save_items t.world.sort_snapshots store (snapshot_at t l both)) l.files).0
        saved named

  same_both :
      (both : List RawCounter × GoMap Identity) (d : IsDue b t l store)
      → arrived_at b l.service.timeout t ≡ some both
      → both ≡ d.both
  same_both both d a = some-injective both d.both (sym a ∙ d.have_arrived)

  tick_saved :
      (both : List RawCounter × GoMap Identity) (r : Option StoreError × Files)
      → arrived_at b l.service.timeout t ≡ some both
      → saved_at t l store both ≡ r
      → let report = saved_report (snapshot_at t l both) r in
        TickPosts b t l store report.0 (posts_for b t report.1)
  unfolding posts_for
  tick_saved both (some e, files) a saved = quiet (λ d.
      let q = ap (λ x. (saved_at t l store x).0) (same_both both d a) in
      let none_of : some e ≡ none = sym (ap (λ r. r.0) saved) ∙ q ∙ d.is_saved in cc (none_of))
  tick_saved both (none, files) a saved =
      let clean = ap (λ r. r.0) saved in
      elim (push-IsQuiet t.vector b.pusher (snapshot_at t l both)) [
        | inl c ↦ rw (push-CanPost t.vector b.pusher (snapshot_at t l both) c) (
            posted (record { both = both; have_arrived = a; is_saved = clean; can_post = c })
              (λ named. ap (λ r. r.1.target) (sym saved) ∙ on_disk both clean named))
        | inr (silent, unable) ↦ rw silent (
            quiet (λ d. unable (
              subst (λ x. CanPost t.vector b.pusher (snapshot_at t l x)) (sym (same_both both d a))
                d.can_post)))
      ]

  tick_reported :
      (r : Option (List RawCounter × GoMap Identity))
      → arrived_at b l.service.timeout t ≡ r
      → let report = reported here (at_tick b t l.service) store r in
        TickPosts b t l store report.0 (posts_for b t report.1)
  unfolding reported posts_for
  tick_reported none a = quiet (λ d. cc (a, d.have_arrived))
  tick_reported (some both) a = tick_saved both (saved_at t l store both) a refl

  tick-TickPosts :
      l.service.store ≡ some store
      → TickPosts b t l store
          (collect_and_push b t l).files
          (pushed b t (collect here (at_tick b t l.service)).2)
  unfolding collect_and_push fetch_identities
  tick-TickPosts h =
      let e = collect-reported here (at_tick b t l.service) (source_at b t) store refl h in
      rw (pushed-posts_for b t (collect here (at_tick b t l.service)).2) (
        subst (λ r. TickPosts b t l store r.0 (posts_for b t r.1)) (sym e)
          (tick_reported (arrived_at b l.service.timeout t) refl))

-- From a service with a store on, each tick of the loop posts at most one snapshot, and the posts
-- of the loop are those of its ticks in order. A tick posts exactly if its counters and identities
-- have arrived, the store with the snapshot of them was saved without an error, the snapshot can
-- be encoded, and the pusher has a URL for which a request can be made and a token. What it posts
-- is the encoding of that snapshot, with the pusher's URL and token, and if the store has a
-- path its file then holds the items with that snapshot.
pub run_snapshot_loop-RunPosts :
    (b : Billing) (ticks : List Tick) (l : Loop) (store : Store)
    → l.service.store ≡ some store
    → (posts : List Post) × RunPosts b ticks l posts
      × ((run_snapshot_loop b ticks l).posts ≡ l.posts ++ posts)
unfolding run_snapshot_loop collect_and_push fetch_identities
run_snapshot_loop-RunPosts b [] l store h = ([], done l, sym (append-nil l.posts))
run_snapshot_loop-RunPosts b (t ∷ ticks) l store h =
    let s = l.service in
    let w : World = record t.world { files = l.files } in
    let stored = stored_by w (at_tick b t s) store (arrived_at b s.timeout t) in
    let e : (collect_and_push b t l).service ≡ record (at_tick b t s) { store = some stored } =
      collect-store w (at_tick b t s) (source_at b t) store refl h in
    let now = pushed b t (collect w (at_tick b t s)).2 in
    let (later, rest, same) =
      run_snapshot_loop-RunPosts b ticks (collect_and_push b t l) stored
        (ap (λ (x : Service). x.store) e) in
    (
      now ++ later,
      next t ticks l store now later h (tick-TickPosts b t l store h) rest,
      same ∙ append_assoc l.posts now later,
    )
