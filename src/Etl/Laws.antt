-- ===== src/Etl/Laws.antt =====
-- The tables of the migration: what they have to be for Etl.Kept.
use esppdv.Base.{refl, [], ◌∷◌}
use esppdv.Etl.Load.{has_key}
use esppdv.Etl.Org.{units, employees, users, user_units}
use esppdv.Etl.Money.{budgets, spds}
use esppdv.Etl.Flow.{approvals, documents, notifications}
use esppdv.Etl.Kept.{Lawful, any-append}

pub units-Lawful : Lawful units
units-Lawful = record {
  stands = λ l t. refl;
  fits = λ a. refl;
  keeps = λ a t. record {
    units = λ k. any-append (has_key units k) t.units (a ∷ []);
    employees = λ k h. h;
    users = λ k h. h;
    user_units = λ k h. h;
    budgets = λ k h. h;
    spds = λ k h. h;
    approvals = λ k h. h;
    documents = λ k h. h;
    notifications = λ k h. h;
  };
  holds = λ t t' k. k.units;
}

pub employees-Lawful : Lawful employees
employees-Lawful = record {
  stands = λ l t. refl;
  fits = λ a. refl;
  keeps = λ a t. record {
    units = λ k h. h;
    employees = λ k. any-append (has_key employees k) t.employees (a ∷ []);
    users = λ k h. h;
    user_units = λ k h. h;
    budgets = λ k h. h;
    spds = λ k h. h;
    approvals = λ k h. h;
    documents = λ k h. h;
    notifications = λ k h. h;
  };
  holds = λ t t' k. k.employees;
}

pub users-Lawful : Lawful users
users-Lawful = record {
  stands = λ l t. refl;
  fits = λ a. refl;
  keeps = λ a t. record {
    units = λ k h. h;
    employees = λ k h. h;
    users = λ k. any-append (has_key users k) t.users (a ∷ []);
    user_units = λ k h. h;
    budgets = λ k h. h;
    spds = λ k h. h;
    approvals = λ k h. h;
    documents = λ k h. h;
    notifications = λ k h. h;
  };
  holds = λ t t' k. k.users;
}

pub user_units-Lawful : Lawful user_units
user_units-Lawful = record {
  stands = λ l t. refl;
  fits = λ a. refl;
  keeps = λ a t. record {
    units = λ k h. h;
    employees = λ k h. h;
    users = λ k h. h;
    user_units = λ k. any-append (has_key user_units k) t.user_units (a ∷ []);
    budgets = λ k h. h;
    spds = λ k h. h;
    approvals = λ k h. h;
    documents = λ k h. h;
    notifications = λ k h. h;
  };
  holds = λ t t' k. k.user_units;
}

pub budgets-Lawful : Lawful budgets
budgets-Lawful = record {
  stands = λ l t. refl;
  fits = λ a. refl;
  keeps = λ a t. record {
    units = λ k h. h;
    employees = λ k h. h;
    users = λ k h. h;
    user_units = λ k h. h;
    budgets = λ k. any-append (has_key budgets k) t.budgets (a ∷ []);
    spds = λ k h. h;
    approvals = λ k h. h;
    documents = λ k h. h;
    notifications = λ k h. h;
  };
  holds = λ t t' k. k.budgets;
}

pub spds-Lawful : Lawful spds
spds-Lawful = record {
  stands = λ l t. refl;
  fits = λ a. refl;
  keeps = λ a t. record {
    units = λ k h. h;
    employees = λ k h. h;
    users = λ k h. h;
    user_units = λ k h. h;
    budgets = λ k h. h;
    spds = λ k. any-append (has_key spds k) t.spds (a ∷ []);
    approvals = λ k h. h;
    documents = λ k h. h;
    notifications = λ k h. h;
  };
  holds = λ t t' k. k.spds;
}

pub approvals-Lawful : Lawful approvals
approvals-Lawful = record {
  stands = λ l t. refl;
  fits = λ a. refl;
  keeps = λ a t. record {
    units = λ k h. h;
    employees = λ k h. h;
    users = λ k h. h;
    user_units = λ k h. h;
    budgets = λ k h. h;
    spds = λ k h. h;
    approvals = λ k. any-append (has_key approvals k) t.approvals (a ∷ []);
    documents = λ k h. h;
    notifications = λ k h. h;
  };
  holds = λ t t' k. k.approvals;
}

pub documents-Lawful : Lawful documents
documents-Lawful = record {
  stands = λ l t. refl;
  fits = λ a. refl;
  keeps = λ a t. record {
    units = λ k h. h;
    employees = λ k h. h;
    users = λ k h. h;
    user_units = λ k h. h;
    budgets = λ k h. h;
    spds = λ k h. h;
    approvals = λ k h. h;
    documents = λ k. any-append (has_key documents k) t.documents (a ∷ []);
    notifications = λ k h. h;
  };
  holds = λ t t' k. k.documents;
}

pub notifications-Lawful : Lawful notifications
notifications-Lawful = record {
  stands = λ l t. refl;
  fits = λ a. refl;
  keeps = λ a t. record {
    units = λ k h. h;
    employees = λ k h. h;
    users = λ k h. h;
    user_units = λ k h. h;
    budgets = λ k h. h;
    spds = λ k h. h;
    approvals = λ k h. h;
    documents = λ k h. h;
    notifications = λ k. any-append (has_key notifications k) t.notifications (a ∷ []);
  };
  holds = λ t t' k. k.notifications;
}
