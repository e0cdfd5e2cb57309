-- ===== src/Portfolios/Positions.antt =====
-- What adding, changing and removing a position does.
use project_stock.Base.{ℕ, is_some, refl}
use project_stock.Store.{get}
use project_stock.Store.Children.Laws.{
  IsSound, Inserts, Removes, Updates, is_users, add_owned-Inserts, remove_child-Removes,
  update_child-Updates,
}
use project_stock.Assets.{Assets}
use project_stock.Decimal.{Decimals}
use project_stock.Portfolios.{
  Portfolio, PositionUpdate, Portfolios, Positions, portfolio_errors, portfolio_of, asset_of,
  new_position, apply_update, get_owned_portfolio, add_position, update_position, remove_position,
}

module _ (d : Decimals) (portfolios : Portfolios d) where
  -- A position is added exactly if the portfolio is there and the user's, the asset is there and no position of
  -- the portfolio has it yet. Then the answer is the new position, which the table has under a new key; every
  -- other position is as before, and without an addition all of them are. No asset stands twice in a portfolio
  -- afterwards, if none did before.
  pub add_position_exact :
      (assets : Assets) (portfolio_id user_id asset_id : ℕ) (quantity avg_buy_price : d.D)
      (positions : Positions d)
      → IsSound portfolio_errors (portfolio_of d) (asset_of d) positions
      → Inserts portfolio_errors
          (portfolio_of d)
          (asset_of d)
          (is_users (λ (p : Portfolio d). p.user_id) user_id (get portfolio_id portfolios))
          (is_some (get asset_id assets))
          portfolio_id
          asset_id
          (new_position d asset_id quantity avg_buy_price portfolio_id)
          positions
          (add_position d portfolios assets portfolio_id user_id asset_id quantity avg_buy_price
            positions)
  unfolding add_position get_owned_portfolio
  add_position_exact assets portfolio_id user_id asset_id quantity avg_buy_price positions =
      add_owned-Inserts portfolio_errors (portfolio_of d) (asset_of d)
        (λ (p : Portfolio d). p.user_id) user_id portfolio_id asset_id
        (new_position d asset_id quantity avg_buy_price) (is_some (get asset_id assets)) portfolios
        positions refl refl

  -- Updating and removing a position reach the named position and no other, and only if it stands in a
  -- portfolio of the user: an update sets its fields, a removal takes it away. Otherwise nothing changes.
  pub change_position_exact :
      (portfolio_id position_id user_id : ℕ) (u : PositionUpdate d) (positions : Positions d)
      → Updates portfolio_errors
          (portfolio_of d)
          (asset_of d)
          position_id
          (apply_update d u)
          (get_owned_portfolio d portfolio_id user_id portfolios)
          positions
          (update_position d portfolios portfolio_id position_id user_id u positions)
        × Removes portfolio_errors
            (portfolio_of d)
            (asset_of d)
            position_id
            (get_owned_portfolio d portfolio_id user_id portfolios)
            positions
            (remove_position d portfolios portfolio_id position_id user_id positions)
  unfolding update_position remove_position
  change_position_exact portfolio_id position_id user_id u positions = (
    update_child-Updates portfolio_errors (portfolio_of d) (asset_of d) position_id
        (apply_update d u) (get_owned_portfolio d portfolio_id user_id portfolios) positions,
    remove_child-Removes portfolio_errors (portfolio_of d) (asset_of d) position_id
        (get_owned_portfolio d portfolio_id user_id portfolios) positions,
  )
