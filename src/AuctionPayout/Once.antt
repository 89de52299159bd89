-- ===== src/AuctionPayout/Once.antt =====
-- payoutParticipants as a whole: what it counts, and a second call.
use potg.Base.{
  ℕ, ◌+◌, ◌*◌, ◌≡◌, refl, sym, ◌∙◌, ap, subst, true, false, not, some, List, [], ◌∷◌, arith,
}
use potg.Base.Int.{ℤ, pos, ◌+ℤ◌}
use potg.Base.Rows.{select, any_of, length}
use potg.Base.Keyed.{find_by}
use potg.Base.Tx.{Tx, ok, Error, pure, throw_if, ◌>>=◌, ◌>>◌, >>=-inv, >>-inv, or_throw_inv}
use potg.AuctionTables.{AuctionRow, Participant, Auctions, auction_key}
use potg.Ledger.{Book, PointTx}
use potg.Ledger.Users.{total_balance}
use potg.Ledger.Integrity.{IsSound}
use potg.AuctionPayout.{
  is_completed, is_recipient, is_paid, Counts, pay_each, Payout, payout_participants, detail,
}
use potg.AuctionPayout.Rounds.{unpaid, pay_each_paid, pay_each_total}

all_selected :
    (i : ℕ) (txs : List PointTx) (ps : List Participant)
    → any_of (unpaid i txs) ps ≡ false
    → length (select (λ p. is_paid i p.user_id txs) ps) ≡ length ps
all_selected i txs [] h = refl
all_selected i txs (p ∷ ps) h = ground (arith, all_selected i txs ps)

-- A payout that succeeded is the loop over the recipients of a completed auction.
payout_inv :
    (i : ℕ) (x : ℤ) (s : Auctions) (b c : Book) (r : Payout)
    → payout_participants i x s b ≡ ok (r, c)
    → (a : AuctionRow) × (find_by auction_key i s.auctions ≡ some a)
      × (is_completed a.status ≡ true)
      × (n : Counts) × (pay_each i x (select (is_recipient i) s.participants) b ≡ ok (n, c))
      × (r ≡ record {
        recipients = length (select (is_recipient i) s.participants);
        paid = n.paid;
        skipped = n.skipped;
      })
unfolding payout_participants
payout_inv i x s b c r e =
    let all = select (is_recipient i) s.participants in
    let close : Counts → Tx Book Payout =
      λ n. pure (record { recipients = length all; paid = n.paid; skipped = n.skipped }) in
    let pay : AuctionRow → Tx Book Payout = λ a.
      throw_if (not (is_completed a.status)) Error.not_completed_auction
      >> (pay_each i x all >>= close) in
    let (a, f, e1) =
      or_throw_inv (find_by auction_key i s.auctions) Error.auction_not_found pay {s = b} e in
    let (k, e2) =
      >>-inv (not (is_completed a.status)) Error.not_completed_auction (pay_each i x all >>= close)
        {s = b} e1 in
    let (n, v, g, e3) = >>=-inv (pay_each i x all) close {s = b} e2 in
    let q : v ≡ c = ground arith in
    (a, f, ground arith, n, subst (λ z. pay_each i x all b ≡ ok (n, z)) q g, ground arith)

-- From a sound ledger, a payout that goes through counts each recipient as paid now or paid
-- before. It keeps the ledger sound, raises the sum of all balances by the amount for each who
-- was paid now, and the detail page then shows all recipients as paid.
pub payout_counts :
    (i x : ℕ) (s : Auctions) (b c : Book) (r : Payout)
    → IsSound b
    → payout_participants i (pos x) s b ≡ ok (r, c)
    → (r.paid + r.skipped ≡ r.recipients)
      × IsSound c
      × (total_balance c.users ≡ total_balance b.users +ℤ pos (r.paid * x))
      × (detail i s c
          ≡ ok (record { total_recipients = r.recipients; paid_recipients = r.recipients }, c))
unfolding detail
payout_counts i x s b c r h e =
    let (a, f, k, n, g, q) = payout_inv i (pos x) s b c r e in
    let all = select (is_recipient i) s.participants in
    let (paid, sum, _) = pay_each_paid i (pos x) all b c n g in
    let (sound, total) = pay_each_total i x all b c n h g in
    let full = all_selected i c.txs all paid in
    (
      ap (λ z. z.paid + z.skipped) q ∙ (sum ∙ ap (λ z. z.recipients) (sym q)),
      sound,
      total ∙ ap (λ z. total_balance b.users +ℤ pos (z.paid * x)) (sym q),
      rw (f, k, full)
          (ap (λ z. ok (record { total_recipients = z; paid_recipients = z }, c))
            (ap (λ z. z.recipients) (sym q))),
    )
