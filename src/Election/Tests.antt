-- ===== src/Election/Tests.antt =====
-- Two candidates on the engine in memory: one renews its record, and the other then takes the lock.
use kubebrain.Base.{◌≡◌, ◌⊎◌, refl, [], ◌∷◌, Option, none, some, if◌then◌else◌, arith, ap, ◌∙◌, sym}
use kubebrain.Base.Bytes.{Bytes, equal, equal_refl}
use kubebrain.Storage.{Error, cas, KvStorage}
use kubebrain.Storage.Contents.{Map, update, apply_op, apply_ops}
use kubebrain.MemKv.{commit, mem_kv}
use kubebrain.MemKv.SortedList.{sorted_list}
use kubebrain.MemKv.Refine.{view, commit-applied}
use kubebrain.MemKv.Engine.{mem_kv-Contents, mem_kv-view}
use kubebrain.Election
use kubebrain.Election.{Encoding, ResourceLock, get_tso, updated, update_marshalled}
use kubebrain.Election.Exclusion.{Passes, update-Updates, update-excludes}

-- a record that is its own text
abbrev text : Encoding Bytes
text = record { marshal = λ b. some b; unmarshal = λ b. some b }

abbrev key_e : Bytes
key_e = b'e' ∷ []

abbrev seen : Bytes
seen = 1 ∷ []

abbrev engine : KvStorage
engine = mem_kv sorted_list

store : engine.State
unfolding mem_kv
store = record { skl = ((key_e, seen) ∷ [], (tt, tt)); timers = []; clock = 9 }

abbrev lock : ResourceLock text engine key_e
lock = record { ler = seen; last_val = seen; tso = 5 }

cas_applies :
    (val : Bytes) (m : Map)
    → m key_e ≡ some seen
    → apply_ops (cas key_e val seen 0 ∷ []) m ≡ some (update m key_e (some val))
unfolding apply_ops apply_op
cas_applies val m h = ground (arith, h, equal_refl seen)

tso_given :
    (x : Option Error) (l : ResourceLock text engine key_e) (s : engine.State)
    → x ≡ none
    → (get_tso text engine key_e (x, l, s)).0 ≡ none
unfolding get_tso mem_kv
tso_given none l s h = refl
tso_given (some e) l s h = h

update_succeeds :
    (val : Bytes) (s : engine.State)
    → (mem_kv-Contents sorted_list).view s key_e ≡ some seen
    → (Election.update text engine key_e val lock s).0 ≡ none
unfolding Election.update update_marshalled updated mem_kv
update_succeeds val s h =
    tso_given (commit sorted_list (cas key_e val seen 0 ∷ []) s).0 lock
      (commit sorted_list (cas key_e val seen 0 ∷ []) s).1
      (commit-applied sorted_list (cas key_e val seen 0 ∷ []) s
        (update (view sorted_list s) key_e (some val))
        (cas_applies val (view sorted_list s) (sym (mem_kv-view sorted_list s key_e) ∙ h))).0

stored : (mem_kv-Contents sorted_list).view store key_e ≡ some seen
unfolding store mem_kv equal
stored = mem_kv-view sorted_list store key_e ∙ refl

renewed : (Election.update text engine key_e seen lock store).0 ≡ none
renewed = update_succeeds seen store stored

update-Updates_example :
    (((mem_kv-Contents sorted_list).view (Election.update text engine key_e (2 ∷ []) lock store).2
        ≡ (mem_kv-Contents sorted_list).view store)
      ⊎ Passes text engine
          (mem_kv-Contents sorted_list)
          key_e
          seen
          (2 ∷ [])
          ((mem_kv-Contents sorted_list).view store)
          ((mem_kv-Contents sorted_list).view
            (Election.update text engine key_e (2 ∷ []) lock store).2))
    × ((Election.update text engine key_e (2 ∷ []) lock store).0 ≡ none
        → Passes text engine
            (mem_kv-Contents sorted_list)
            key_e
            seen
            (2 ∷ [])
            ((mem_kv-Contents sorted_list).view store)
            ((mem_kv-Contents sorted_list).view
              (Election.update text engine key_e (2 ∷ []) lock store).2))
update-Updates_example =
    update-Updates text engine (mem_kv-Contents sorted_list) key_e (2 ∷ []) lock store

still_stored :
    (mem_kv-Contents sorted_list).view (Election.update text engine key_e seen lock store).2 key_e
    ≡ some seen
still_stored =
    let p =
      (update-Updates text engine (mem_kv-Contents sorted_list) key_e seen lock store).1 renewed in
    ap (λ m. m key_e) p.after
    ∙ ap (λ c. if c then some p.val else (mem_kv-Contents sorted_list).view store key_e)
        (equal_refl key_e)
    ∙ sym p.written

taken :
    (Election.update text engine key_e
      (2 ∷ [])
      lock
      (Election.update text engine key_e seen lock store).2).0
    ≡ none
taken = update_succeeds (2 ∷ []) (Election.update text engine key_e seen lock store).2 still_stored

update-excludes_example : some seen ≡ some seen
update-excludes_example =
    update-excludes text engine (mem_kv-Contents sorted_list) key_e seen (2 ∷ []) lock lock store
      refl renewed taken
