-- ===== src/History/Reload.antt =====
-- What is read back from the history after a message is written to it.

use mathlib.Core.Path.{subst}
use mathlib.Core.Option.{none-ne-some, some-injective}
use room.Base.{
  String, ◌<>◌, ◌≡◌, sym, ap, ◌∙◌, true, false, Option, none, some, List, [], ◌∷◌, ◌++◌, arith, All,
  All-append, Option-cases, inl, inr, unwrap_or,
}
use room.Base.Text.Blank.{is_blank, trim}
use room.Base.Text.Lines.{concat_lines, is_line, lines, concat_lines-snoc}
use room.Base.Text.Codec.{IsEncoded, trimming, load_lines, load_lines-snoc}
use room.Protocol.Message.{Message, set_seq}
use room.Broker.Fanout.{Env, Channel, next_seq, append, persist_and_send, broadcast_and_persist}
use room.History.File.{load}

-- The file holds whole lines, each with its end.
unfoldable pub IsWhole : Option String → Type 0
IsWhole none = Unit
IsWhole (some raw) = (ls : List String) × All (λ l. is_line l ≡ true) ls × (raw ≡ concat_lines ls)

module _ {J : Type 0} (env : Env J) where
  append_line-load :
      (chat : Option String) (m : Message J) (s : String)
      → IsWhole chat
      → env.codec.decode (trim s) ≡ some m
      → is_line s ≡ true
      → is_blank s ≡ false
      → (load env (some (unwrap_or chat "" <> (s <> "\n"))) ≡ load env chat ++ (m ∷ []))
        × IsWhole (some (unwrap_or chat "" <> (s <> "\n")))
  unfolding load IsWhole trimming concat_lines load_lines lines
  append_line-load none m s whole d on_line dark =
      let e = sym (concat_lines-snoc [] s) in
      (
        ap (load_lines (trimming env.codec)) e
            ∙ load_lines-snoc (trimming env.codec) [] s m tt on_line dark d,
        (s ∷ [], (on_line, tt), e),
      )
  append_line-load (some raw) m s (ls, all, same) d on_line dark =
      let e = ap (λ r. r <> (s <> "\n")) same ∙ sym (concat_lines-snoc ls s) in
      (
        ap (load_lines (trimming env.codec)) e
            ∙ load_lines-snoc (trimming env.codec) ls s m all on_line dark d
            ∙ ap (λ r. load_lines (trimming env.codec) r ++ (m ∷ [])) (sym same),
        (ls ++ (s ∷ []), All-append _ ls (s ∷ []) all (on_line, tt), e),
      )

  append-file :
      (chat : Option String) (m : Message J) (l s : String)
      → (append env m chat).0 ≡ some l
      → env.codec.encode m ≡ some s
      → (append env m chat).1 ≡ some (unwrap_or chat "" <> (s <> "\n"))
  unfolding append
  append-file chat m l s sent e = ground (arith, sent, e)

  append-load :
      (chat : Option String) (m : Message J) (l : String)
      → IsWhole chat
      → (append env m chat).0 ≡ some l
      → IsEncoded (trimming env.codec) m
      → (load env (append env m chat).1 ≡ load env chat ++ (m ∷ [])) × IsWhole (append env m chat).1
  unfolding trimming
  append-load chat m l whole sent (s, e, d, on_line, dark) =
      rw (append-file chat m l s sent e) (append_line-load chat m s whole d on_line dark)

  -- Where a message is broadcast, the history held whole lines and `serde_json` reads back the line of the
  -- numbered message, the history after it is the history before with that message behind it, again in
  -- whole lines.
  pub broadcast-load :
      (ch : Channel) (msg m : Message J)
      → IsWhole ch.chat
      → (broadcast_and_persist env msg ch).0 ≡ some m
      → IsEncoded (trimming env.codec) m
      → let after = (broadcast_and_persist env msg ch).1 in
        (load env after.chat ≡ load env ch.chat ++ (m ∷ [])) × IsWhole after.chat
  unfolding broadcast_and_persist persist_and_send
  broadcast-load ch msg m whole sent ok =
      let numbered = set_seq (next_seq ch) msg in
      elim (Option-cases (append env numbered ch.chat).0) [
        | inl e ↦ absurd (none-ne-some m (rw (broadcast_and_persist, persist_and_send, e) at sent))
        | inr (l, e) ↦
            let same =
              some-injective numbered m (rw (broadcast_and_persist, persist_and_send, e) at sent) in
            let known = subst (IsEncoded (trimming env.codec)) (sym same) ok in
            rw (broadcast_and_persist, persist_and_send, e)
              (rw (← same) (append-load ch.chat numbered l whole e known))
      ]
