-- ===== src/Evm/Events/Resumed.antt =====
-- catalog/quicknode/evm/events.go, the loop over the logs of a range: over any number of lives.
use monitord.Base.{
  ◌+◌, ◌^◌, ◌<◌, ◌≡◌, refl, sym, ◌∙◌, inl, inr, true, false, Option, none, some, List, [], ◌∷◌,
  ◌++◌, map, All, Bool-cases,
}
use mathlib.Core.List.{append_assoc, append-nil}
use monitord.Base.Table.{select}
use monitord.Evm.Events.{
  Log, EventsCursor, Endpoint, Progress, EventsFailure, Save, kept, lost, reconciled, cursor_at,
  confirm, without, save_progress, deliver_log, replay_logs, and_then, failing, after_save,
  commit_failed, handler_failed, next_moment,
}
use monitord.Evm.Events.Pending.{
  Precedes, IsAscending, pending, reconciled-Precedes, reconciled-cursor_at, pending-cursor_at,
  pending_from, pending-hit, pending-miss,
}

-- What is saved as delivered, and what the saved cursor leaves to deliver.
abbrev pub account : Progress → List Log → List Log
account s ls = s.delivered ++ map confirm (pending s.saved_cursor ls)

-- From `s` to `t` the account of the logs `ls` is kept, the saved cursor has not lost a log before
-- them, and at a success nothing is left and the memory agrees with what is saved.
record Advances (ls : List Log) (s : Progress) (r : Progress × Option EventsFailure) : Type 0 where
  kept_account : account r.0 ls ≡ account s ls
  kept_before :
      (x : Log)
      → All (Precedes x) ls
      → reconciled s.saved_cursor x ≡ true
      → reconciled r.0.saved_cursor x ≡ true
  done : r.1 ≡ none → (pending r.0.saved_cursor ls ≡ []) × (r.0.cursor ≡ r.0.saved_cursor)

-- The three outcomes of one delivery.
data Delivers (l : Log) (c : EventsCursor) (live_logs : List Log) (s : Progress)
    : Progress × Option EventsFailure → Type 0 where
  saves :
      {t : Progress}
      → t.cursor ≡ c
      → t.saved_cursor ≡ c
      → t.delivered ≡ s.delivered ++ l ∷ []
      → Delivers l c live_logs s (t, none)
  stops :
      {t : Progress} (e : EventsFailure)
      → t.saved_cursor ≡ s.saved_cursor
      → t.delivered ≡ s.delivered
      → Delivers l c live_logs s (t, some e)
  saves_only :
      {t : Progress} (e : EventsFailure)
      → t.saved_cursor ≡ c
      → t.delivered ≡ s.delivered ++ l ∷ []
      → Delivers l c live_logs s (t, some e)

after_save-Delivers :
    (l : Log) (c : EventsCursor) (live_logs : List Log) (s : Progress) (o : Save)
    → Delivers l c live_logs s
        (after_save (some c) (some live_logs) (l ∷ []) (next_moment (next_moment s)) o)
after_save-Delivers l c live_logs s kept = saves refl refl refl
after_save-Delivers l c live_logs s (lost true) = saves_only commit_failed refl refl
after_save-Delivers l c live_logs s (lost false) = stops commit_failed refl refl

deliver_log-Delivers :
    (w : Endpoint) (l : Log) (c : EventsCursor) (live_logs : List Log) (s : Progress)
    → Delivers l c live_logs s (deliver_log w l (some c) (some live_logs) s)
unfolding deliver_log save_progress
deliver_log-Delivers w l c live_logs s = elim (Bool-cases (w.handles s.moment l)) [
  | inl good ↦ rw good (after_save-Delivers l c live_logs s (w.save (next_moment s).moment))
  | inr bad ↦ rw bad (stops handler_failed refl refl)
]

module _ (l : Log) (ls : List Log) (small : l.index + 1 < 2 ^ 64)
    (before : All (Precedes l) ls) where
  -- The account with the log and all that follow it, once it is delivered.
  abbrev full : Progress → List Log
  full s = (s.delivered ++ confirm l ∷ []) ++ map confirm ls

  account-fresh : (s : Progress) → reconciled s.saved_cursor l ≡ false → account s (l ∷ ls) ≡ full s
  account-fresh s fresh = rw (pending-miss s.saved_cursor l ls fresh) (
      rw (pending_from s.saved_cursor l ls fresh before)
        (sym (append_assoc s.delivered (confirm l ∷ []) (map confirm ls))))

  account-sent :
      (s t : Progress)
      → t.saved_cursor ≡ cursor_at s.cursor l
      → t.delivered ≡ s.delivered ++ confirm l ∷ []
      → account t ls ≡ full s
  account-sent s t saved sent =
      rw saved (rw (pending-cursor_at s.cursor l ls small before) (rw sent refl))

  reconciled-sent :
      (s t : Progress) → t.saved_cursor ≡ cursor_at s.cursor l → reconciled t.saved_cursor l ≡ true
  reconciled-sent s t saved = rw saved (reconciled-cursor_at s.cursor l small)

  account-hit :
      (t : Progress) → reconciled t.saved_cursor l ≡ true → account t (l ∷ ls) ≡ account t ls
  account-hit t h = rw (pending-hit t.saved_cursor l ls h) refl

  -- A log that is behind the cursor, and then the rest.
  skip-Advances :
      (s : Progress) (r : Progress × Option EventsFailure)
      → reconciled s.saved_cursor l ≡ true
      → Advances ls s r
      → Advances (l ∷ ls) s r
  skip-Advances s r hit rest =
      let after = rest.kept_before l before hit in
      record {
        kept_account = account-hit r.0 after ∙ rest.kept_account ∙ sym (account-hit s hit);
        kept_before = λ x p k. rest.kept_before x p.1 k;
        done = λ e. (pending-hit r.0.saved_cursor l ls after ∙ (rest.done e).0, (rest.done e).1);
      }

  next-Advances :
      (w : Endpoint) (live_logs : List Log) (s : Progress) {r : Progress × Option EventsFailure}
      → reconciled s.saved_cursor l ≡ false
      → Delivers (confirm l) (cursor_at s.cursor l) live_logs s r
      → ((t : Progress) → t.cursor ≡ t.saved_cursor → Advances ls t (replay_logs w ls t))
      → Advances (l ∷ ls) s (and_then failing r (replay_logs w ls))
  next-Advances w live_logs s fresh (saves {t = t} c saved sent) ih =
      let rest = ih t (c ∙ sym saved) in
      let hit = rest.kept_before l before (reconciled-sent s t saved) in
      record {
        kept_account =
            account-hit (replay_logs w ls t).0 hit
            ∙ rest.kept_account
            ∙ account-sent s t saved sent
            ∙ sym (account-fresh s fresh);
        kept_before = λ x p h.
            rest.kept_before x p.1
              (reconciled-Precedes t.saved_cursor x l p.0 (reconciled-sent s t saved));
        done = λ e. (
          pending-hit (replay_logs w ls t).0.saved_cursor l ls hit ∙ (rest.done e).0,
          (rest.done e).1,
        );
      }
  next-Advances w live_logs s fresh (stops {t = t} e saved sent) ih = record {
    kept_account = rw saved (rw sent refl);
    kept_before = λ x p h. rw saved h;
    done = λ n. cc;
  }
  next-Advances w live_logs s fresh (saves_only {t = t} e saved sent) ih = record {
    kept_account =
        account-hit t (reconciled-sent s t saved)
        ∙ account-sent s t saved sent
        ∙ sym (account-fresh s fresh);
    kept_before = λ x p h. reconciled-Precedes t.saved_cursor x l p.0 (reconciled-sent s t saved);
    done = λ n. cc;
  }

replay_logs-Advances :
    (w : Endpoint) (ls : List Log) (s : Progress)
    → IsAscending ls
    → s.cursor ≡ s.saved_cursor
    → Advances ls s (replay_logs w ls s)
unfolding replay_logs pending select
replay_logs-Advances w [] s h same = record {
  kept_account = refl;
  kept_before = λ x p k. k;
  done = λ e. (refl, same);
}
replay_logs-Advances w (l ∷ ls) s h same = elim (Bool-cases (reconciled s.cursor l)) [
  | inl hit ↦ rw hit (
      skip-Advances l ls h.0 h.1 s (replay_logs w ls s) (rw (sym same) hit)
        (replay_logs-Advances w ls s h.2 same))
  | inr miss ↦ rw miss (
      next-Advances l ls h.0 h.1 w (without l s.live_logs) s (rw (sym same) miss)
        (deliver_log-Delivers w (confirm l) (cursor_at s.cursor l) (without l s.live_logs) s)
        (λ t e. replay_logs-Advances w ls t h.2 e))
]

-- A life of the monitor starts from what is saved.
abbrev pub restart : Progress → Progress
restart s = record s { cursor = s.saved_cursor; live_logs = s.saved_live }

-- Lives, each with the endpoint, the monitor and the session as they are then, in which the loop runs
-- over the same logs.
unfoldable pub lives_of : List Endpoint → List Log → Progress → Progress
unfolding replay_logs
lives_of [] ls s = s
lives_of (w ∷ ws) ls s = lives_of ws ls (replay_logs w ls (restart s)).0

lives_of-account :
    (ws : List Endpoint) (ls : List Log) (s : Progress)
    → IsAscending ls
    → account (lives_of ws ls s) ls ≡ account s ls
unfolding lives_of
lives_of-account [] ls s h = refl
lives_of-account (w ∷ ws) ls s h =
    lives_of-account ws ls (replay_logs w ls (restart s)).0 h
    ∙ (replay_logs-Advances w ls (restart s) h refl).kept_account

-- However often the monitor, the session or the process fails while it goes through the logs of a
-- range, and whether or not a failed commit is durable: once a life comes to the end of the range,
-- the deliveries that are saved are those from before the first life, and then every log that was
-- still to be delivered, once and in the order of the chain. The logs are the same in every life, in
-- the order of the chain, and no index is the largest uint64.
pub lives_of-delivered :
    (ws : List Endpoint) (w : Endpoint) (ls : List Log) (s : Progress)
    → IsAscending ls
    → (replay_logs w ls (restart (lives_of ws ls s))).1 ≡ none
    → (replay_logs w ls (restart (lives_of ws ls s))).0.delivered
      ≡ s.delivered ++ map confirm (pending s.saved_cursor ls)
lives_of-delivered ws w ls s h done =
    let last = replay_logs-Advances w ls (restart (lives_of ws ls s)) h refl in
    sym (
      rw (last.done done).0
        (append-nil (replay_logs w ls (restart (lives_of ws ls s))).0.delivered))
    ∙ last.kept_account
    ∙ lives_of-account ws ls s h
