-- ===== src/Purchase/Dialogue/Carried.antt =====
-- What a dialogue of a purchase carries over to the next one.
use marzbot.Base.{ℕ, ◌≡◌, ◌≢◌, refl, ap, true, false, Option, some, arith, is_some, get_or}
use marzbot.Base.Int.{ℤ, ltb_ℤ}
use marzbot.Base.Text.{codes, strip}
use marzbot.Base.Table.{find}
use marzbot.Models.{Uuid, Str, Plan, User, Wallet, DiscountCode, Time}
use marzbot.Session.{
  Session, ok, err, Exn, Outside, Call, Text, State, Fsm, answer, failure, managed, cleared, log,
  Action, call_telegram, catch, clear_state, rolled_back, ◌>>◌,
}
use marzbot.Pricing.{final_price}
use marzbot.Discount.{is_valid}
use marzbot.Wallet.{get_by_user_id}
use marzbot.Provisioning.{plan_has_id, usable_plan}
use marzbot.Purchase.{
  get_by_telegram_id, load, is_processing, spend_discount, buy, pay_with_wallet,
  process_wallet_purchase,
}
use marzbot.Purchase.Finalize.{finalize_purchase}
use marzbot.Purchase.Dialogue.{
  Update, is_config_name, has_username, select_usable, select_by_id, plan_selected_ask_name,
  accept_name, config_name_entered, show_choice, skip_discount_code, text_entered, route,
}

is_valid-other_plan :
    (d : DiscountCode) (a b : Uuid) (now : Time)
    → d.plan_id ≡ some a
    → a ≢ b
    → is_valid d (some b) now ≡ false
unfolding is_valid
is_valid-other_plan d a b now e ne = ground arith

-- The session once the plan `b` is selected, and once it is named.
abbrev pub selected : Session → Uuid → Session
selected s b = record (log Call.answer_callback s) {
  fsm = record (s.fsm) { plan_id = some b; state = State.waiting_for_config_name };
}

abbrev pub named_so : ℕ → Session → Uuid → Str → Session
named_so telegram_id s b text =
    record (log (Call.send_message telegram_id Text.ask_discount) (log Call.answer_callback s)) {
      fsm = record (s.fsm) {
        plan_id = some b;
        config_name = some (strip text);
        state = State.waiting_for_discount_code;
      };
    }

usable_plan-some : (found : Option Plan) (p : Plan) → usable_plan found ≡ some p → found ≡ some p
usable_plan-some found p e = ground arith

module _ (o : Outside) (telegram_id : ℕ) where
  -- If Telegram answers the clicks, but the sign that the bot is typing cannot be sent, the conversation is left in processing, and
  -- every later click on the payment from the wallet is only answered.
  pub pay_with_wallet_sticks :
      (s : Session) (e : Exn)
      → is_processing o s.fsm.state ≡ false
      → ((t : Session) → o.telegram t Call.answer_callback ≡ answer tt)
      → ((t : Session) → o.telegram t (Call.send_chat_action telegram_id) ≡ failure e)
      → (t : Session) × (managed (pay_with_wallet o telegram_id) s ≡ err e t)
        × (managed (pay_with_wallet o telegram_id) t
            ≡ managed (call_telegram o Call.answer_callback) t)
        × (t.fsm ≡ record (s.fsm) { state = State.purchase_processing })
  unfolding managed pay_with_wallet
  pay_with_wallet_sticks s e idle answered fails =
      let t = record (log Call.answer_callback s) {
        fsm = record (s.fsm) { state = State.purchase_processing };
      } in
      (
        rolled_back s (log (Call.send_chat_action telegram_id) t),
        rw (answered s, idle, fails t) refl,
        rw (answered _) refl,
        refl,
      )

  module _ (s : Session) (u : User) (w : Wallet) (plan : Plan) (b : Uuid)
      (known : get_by_telegram_id telegram_id s ≡ some u) (funded : get_by_user_id u.id s ≡ some w)
      (chosen : usable_plan (find (plan_has_id b) s.plans) ≡ some plan)
      (answers : (t : Session) (c : Call) → o.telegram t c ≡ answer tt) where
    -- A payment from the wallet, once the data are read.
    abbrev paying : Fsm → ℤ → Action (Unit {0})
    paying fsm price =
        catch
          (spend_discount fsm.discount_id
            >> finalize_purchase o telegram_id u plan price (get_or fsm.config_name (codes "VPN")))
          (λ e. clear_state)

    loads :
        (t : Session)
        → t.users ≡ s.users
        → t.wallets ≡ s.wallets
        → t.plans ≡ s.plans
        → load telegram_id b t ≡ some (u, w, plan)
    unfolding load
    loads t users wallets plans =
        let known' : get_by_telegram_id telegram_id t ≡ some u = rw users known in
        let funded' : get_by_user_id u.id t ≡ some w = rw wallets funded in
        let chosen' : usable_plan (find (plan_has_id b) t.plans) ≡ some plan = rw plans chosen in
        ground arith

    buys :
        (fsm : Fsm) (percent : ℕ) (t : Session)
        → get_or fsm.discount_percent 0 ≡ percent
        → ltb_ℤ w.balance (final_price plan.price percent) ≡ false
        → buy o telegram_id fsm (u, w, plan) t
          ≡ (spend_discount fsm.discount_id
                >> finalize_purchase o telegram_id u plan
                    (final_price plan.price percent)
                    (get_or fsm.config_name (codes "VPN")))
              t
    unfolding buy
    buys fsm percent t percent_is covered = ground arith

    processes :
        (t : Session) (percent : ℕ)
        → t.users ≡ s.users
        → t.wallets ≡ s.wallets
        → t.plans ≡ s.plans
        → t.fsm.plan_id ≡ some b
        → get_or t.fsm.discount_percent 0 ≡ percent
        → ltb_ℤ w.balance (final_price plan.price percent) ≡ false
        → process_wallet_purchase o telegram_id t
          ≡ (spend_discount t.fsm.discount_id
                >> finalize_purchase o telegram_id u plan
                    (final_price plan.price percent)
                    (get_or t.fsm.config_name (codes "VPN")))
              (record t { fsm = cleared })
    unfolding process_wallet_purchase
    processes t percent users wallets plans at_b percent_is covered =
        rw (at_b, loads (record t { fsm = cleared }) users wallets plans)
          (buys t.fsm percent (record t { fsm = cleared }) percent_is covered)

    pays :
        (t : Session) (percent : ℕ)
        → t.users ≡ s.users
        → t.wallets ≡ s.wallets
        → t.plans ≡ s.plans
        → t.fsm.plan_id ≡ some b
        → get_or t.fsm.discount_percent 0 ≡ percent
        → is_processing o t.fsm.state ≡ false
        → ltb_ℤ w.balance (final_price plan.price percent) ≡ false
        → pay_with_wallet o telegram_id t
          ≡ paying t.fsm
              (final_price plan.price percent)
              (record (log (Call.send_chat_action telegram_id) (log Call.answer_callback t)) {
                fsm = cleared;
              })
    unfolding pay_with_wallet
    pays t percent users wallets plans at_b percent_is idle covered =
        let clicked = log (Call.send_chat_action telegram_id) (record (log Call.answer_callback t) {
          fsm = record (t.fsm) { state = State.purchase_processing };
        }) in
        rw
          (
            answers t Call.answer_callback,
            idle,
            answers
                (record (log Call.answer_callback t) {
                  fsm = record (t.fsm) { state = State.purchase_processing };
                })
                (Call.send_chat_action telegram_id),
            processes clicked percent users wallets plans at_b percent_is covered,
          )
          refl

    module _ (text : Str) (dc : DiscountCode) (a : Uuid) (now : Time)
        (named : is_config_name (strip text) ≡ true)
        (free : is_some (find (has_username (strip text)) s.xui_clients) ≡ false)
        (percent : s.fsm.discount_percent ≡ some dc.discount_percent)
        (code : s.fsm.discount_id ≡ some dc.id) (elsewhere : dc.plan_id ≡ some a) (other : a ≢ b)
        (covered : ltb_ℤ w.balance (final_price plan.price dc.discount_percent) ≡ false) where
      selects : route o telegram_id (Update.select_plan (some b)) s ≡ ok tt (selected s b)
      unfolding route plan_selected_ask_name select_by_id select_usable
      selects = rw (answers s Call.answer_callback, chosen) refl

      names :
          route o telegram_id (Update.write (some text)) (selected s b)
          ≡ ok tt (named_so telegram_id s b text)
      unfolding route text_entered config_name_entered accept_name
      names = rw (named, free, answers _ _) refl

      -- If Telegram answers, the discount of a code for the plan `a`, kept in the conversation, goes
      -- over to another plan `b` that the user selects and names next, for which the code is not
      -- valid: a click on the payment from the wallet then spends the code and buys `b` at the
      -- reduced price, provided the wallet covers that price.
      pub route-carries_discount :
          (is_valid dc (some b) now ≡ false)
          × (route o telegram_id (Update.select_plan (some b)) s ≡ ok tt (selected s b))
          × (route o telegram_id (Update.write (some text)) (selected s b)
              ≡ ok tt (named_so telegram_id s b text))
          × (route o telegram_id Update.pay_wallet (named_so telegram_id s b text)
              ≡ catch
                  (spend_discount (some dc.id)
                    >> finalize_purchase o telegram_id u plan
                        (final_price plan.price dc.discount_percent)
                        (strip text))
                  (λ e. clear_state)
                  (record (log
                    (Call.send_chat_action telegram_id)
                    (log Call.answer_callback (named_so telegram_id s b text))) { fsm = cleared }))
      unfolding route
      route-carries_discount = (
        is_valid-other_plan dc a b now elsewhere other,
        selects,
        names,
        rw (← code) (
            pays (named_so telegram_id s b text) dc.discount_percent refl refl refl refl
              (ap (λ p. get_or p 0) percent) refl covered),
      )

    -- If Telegram answers, a discount that the user enters and then skips costs the code all the
    -- same: the purchase from the wallet is at the full price, and spends the code.
    pub skip_discount_code-spends :
        (code : Uuid)
        → s.fsm.plan_id ≡ some b
        → s.fsm.discount_id ≡ some code
        → is_processing o s.fsm.state ≡ false
        → ltb_ℤ w.balance plan.price ≡ false
        → let t = record (log Call.answer_callback s) {
          fsm = record (s.fsm) { discount_percent = some 0 };
        } in
          (route o telegram_id Update.skip_discount s ≡ ok tt t)
          × (route o telegram_id Update.pay_wallet t
              ≡ catch
                  (spend_discount (some code)
                    >> finalize_purchase o telegram_id u plan plan.price
                        (get_or s.fsm.config_name (codes "VPN")))
                  (λ e. clear_state)
                  (record (log (Call.send_chat_action telegram_id) (log Call.answer_callback t)) {
                    fsm = cleared;
                  }))
    unfolding route skip_discount_code show_choice final_price
    skip_discount_code-spends code at_b entered idle covered =
        let t = record (log Call.answer_callback s) {
          fsm = record (s.fsm) { discount_percent = some 0 };
        } in
        (
          rw (answers s Call.answer_callback, at_b, usable_plan-some _ plan chosen) refl,
          rw (← entered) (pays t 0 refl refl refl at_b refl idle covered),
        )
